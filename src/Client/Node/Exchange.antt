-- ===== src/Client/Node/Exchange.antt =====
-- One packet of a transfer sent and acknowledged, step by step.
use ridingthecode.Common.{
  ℕ, suc, ◌+◌, ◌*◌, ◌^◌, ◌≤◌, ◌<◌, ◌≡◌, refl, ap, ◌∙◌, [], ◌∷◌, false, arith, length, ◌==◌,
  if◌then◌else◌, subst,
}
use ridingthecode.Common.Int.{ℤ, pos, ◌+ℤ◌}
use ridingthecode.Common.Text.{Bytes}
use ridingthecode.Common.Fault.{ok, ◌>>=◌}
use ridingthecode.Packet.{PacketHdr, ip_len, payload, from_bytes, to_bytes}
use ridingthecode.Packet.Layout.{from_bytes-to_bytes}
use ridingthecode.Client.Transfer.{TransferController, verify_ack}
use ridingthecode.Client.Transfer.Packets.{nth_packet, nth_packet-IsPacket}
use ridingthecode.Client.Transfer.Window.{View, verify_ack_lem, verify_ack-InWindow}
use ridingthecode.Client.Transfer.Next.{read_next_ready, sent-View}
use ridingthecode.Client.Node.{
  Node, Network, set_front, transmit_data, transmit_next, Sent, check_packet,
}
use ridingthecode.Client.Node.Acks.{Fronts, transmit_front}
use ridingthecode.Client.Node.Delivery.{
  answer, exchange, acked_by, sent_data, transmit_ready, answer_lem, Progress, acked_by-IsPacket,
  check_packet_good,
}

module _ (net : Network) (now : ℤ) (src : Bytes) (s : Node) (n w a : ℕ) (p : Progress net s n w a)
    (h : length src ≤ ip_len) (w0 : 0 < w) (w1 : n + w < 2 ^ 31) (l : a < n) where
  -- the packet sent, and the transfer after it
  packet : PacketHdr
  packet = nth_packet p.t.ipdest p.t.src_ip p.t.window_size a

  sent_t : TransferController
  sent_t = record p.t { current_seq = p.t.current_seq +ℤ pos 1 }

  acked_t : TransferController
  acked_t = (verify_ack sent_t (acked_by src a)).1

  after : Node
  after = record (set_front (sent_data now s sent_t) acked_t) { timer_enabled = false }

  window_fits : w * p.k < 2 ^ 31
  window_fits = omega (arith, p.inside.base_recent)

  same_packet : from_bytes (to_bytes packet) ≡ packet
  unfolding packet
  same_packet = from_bytes-to_bytes (
      nth_packet-IsPacket p.t.ipdest p.t.src_ip p.t.window_size a
        (rw p.view.window_len (omega arith)) (omega arith))

  step_sent :
      transmit_data net now s
      ≡ ok (
        pos 0,
        sent_data now s sent_t,
        record { address = p.reaches.address; content = to_bytes packet } ∷ [],
      )
  unfolding packet sent_t
  step_sent =
      transmit_front net now s p.t p.fronts.others p.fronts.at_front
      ∙ ap (λ m. m >>= transmit_next net now s)
          (read_next_ready p.t n w a a p.k p.view l p.inside.base_in window_fits)
      ∙ transmit_ready net now s p.t sent_t (to_bytes packet) p.reaches p.fronts
          (ap (λ q. q.ptype) same_packet ∙ is_payload)
    where
      is_payload : packet.ptype ≡ payload
      is_payload = unfold nth_packet in refl

  sent_t-Fronts : Fronts (sent_data now s sent_t) sent_t
  unfolding sent_data
  sent_t-Fronts = record { others = p.fronts.others; at_front = rw p.fronts.at_front refl }

  sent_t-View : View sent_t n w a (suc a + 1) p.k
  unfolding sent_t
  sent_t-View = sent-View p.t n w a a p.k p.view

  step_answered :
      answer net src
        (sent_data now s sent_t)
        (record { address = p.reaches.address; content = to_bytes packet } ∷ [])
      ≡ ok after
  unfolding after acked_t packet nth_packet
  step_answered =
      answer_lem net now src (to_bytes packet) p.reaches.address (sent_data now s sent_t) sent_t n w
        a p.k (suc a + 1) sent_t-Fronts sent_t-View window_fits h (omega arith)
        (ap (λ q. q.sequence_number) same_packet)

  step_exchange : exchange net now src s ≡ ok after
  unfolding exchange
  step_exchange = rw (step_sent, step_answered) refl

  step_checked :
      check_packet net (sent_data now s sent_t) (to_bytes (acked_by src a)) ≡ ok (after, [])
  unfolding after acked_t acked_by
  step_checked =
      check_packet_good net (sent_data now s sent_t) sent_t (to_bytes (acked_by src a)) n w a p.k
        (suc a + 1) sent_t-Fronts sent_t-View window_fits (ap (λ q. q.ptype) same)
        (ap (λ q. q.ack_value) same)
      ∙ ap
          (λ q. ok (
            record (set_front (sent_data now s sent_t) (verify_ack sent_t q).1) {
              timer_enabled = false;
            },
            [],
          ))
          same
    where
      same : from_bytes (to_bytes (acked_by src a)) ≡ acked_by src a
      same = from_bytes-to_bytes (acked_by-IsPacket src a (omega arith))

  after-timer : after.timer_enabled ≡ false
  unfolding after
  after-timer = refl

  after-Progress : Progress net after n w (a + 1)
  unfolding after acked_t sent_data acked_by
  after-Progress = record {
    reaches = record {
      address = p.reaches.address;
      found = p.reaches.found;
      taken = p.reaches.taken;
    };
    t = acked_t;
    k = if w * p.k == a + 1 then p.k + 1 else p.k;
    fronts = record { others = p.fronts.others; at_front = rw p.fronts.at_front refl };
    view =
        subst (λ q. View acked_t n w (a + 1) q (if w * p.k == a + 1 then p.k + 1 else p.k)) (seq a)
          ((verify_ack_lem sent_t (acked_by src a) n w a (suc a + 1) p.k sent_t-View window_fits).0
            refl).0;
    inside = verify_ack-InWindow n w a (suc (a + 1)) p.k w0 (record {
      sent_all = omega arith;
      sent_in = omega (arith, p.inside.base_in);
      base_in = p.inside.base_in;
      base_recent = p.inside.base_recent;
    });
  }
    where
      seq : (a : ℕ) → suc a + 1 ≡ suc (a + 1)
      seq a = omega arith

-- Over a network that finds the emulator and takes every datagram, from `a` packets sent and
-- acknowledged with `a < n`, one exchange goes without a fault and ends with `a + 1`; an `int`
-- holds the size of the packets and one more, and `n` plus the window, which is positive; the source
-- address fits its field.
pub exchange_lem :
    (net : Network) (now : ℤ) (src : Bytes) (s : Node) (n w a : ℕ)
    → Progress net s n w a
    → length src ≤ ip_len
    → 0 < w
    → n + w < 2 ^ 31
    → a < n
    → (s' : Node) × (exchange net now src s ≡ ok s') × Progress net s' n w (a + 1)
exchange_lem net now src s n w a p h w0 w1 l = (
  after net now src s n w a p h w0 w1 l,
  step_exchange net now src s n w a p h w0 w1 l,
  after-Progress net now src s n w a p h w0 w1 l,
)

-- The two halves of that exchange: what is sent, and what the ack makes of the client.
pub exchange_steps :
    (net : Network) (now : ℤ) (src : Bytes) (s : Node) (n w a : ℕ)
    → Progress net s n w a
    → length src ≤ ip_len
    → 0 < w
    → n + w < 2 ^ 31
    → a < n
    → (s₁ : Node) × (m : Sent) × (s₂ : Node) × (transmit_data net now s ≡ ok (pos 0, s₁, m ∷ []))
      × (check_packet net s₁ (to_bytes (acked_by src a)) ≡ ok (s₂, []))
      × (s₂.timer_enabled ≡ false)
      × Progress net s₂ n w (a + 1)
exchange_steps net now src s n w a p h w0 w1 l = (
  _,
  _,
  after net now src s n w a p h w0 w1 l,
  step_sent net now src s n w a p h w0 w1 l,
  step_checked net now src s n w a p h w0 w1 l,
  after-timer net now src s n w a p h w0 w1 l,
  after-Progress net now src s n w a p h w0 w1 l,
)
