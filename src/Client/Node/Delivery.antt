-- ===== src/Client/Node/Delivery.antt =====
-- A transfer over a network that loses nothing: every packet is sent once and acknowledged, and then
-- the end packet goes out and the transfer is done.
use ridingthecode.Common.{
  ℕ, zero, suc, ◌+◌, ◌-◌, ◌*◌, ◌^◌, ◌≤◌, ◌<◌, ◌≡◌, refl, ap, List, [], ◌∷◌, true, false, arith,
  some, length, replicate, length-replicate,
}
use ridingthecode.Common.Int.{ℤ, pos, pos_sub}
use ridingthecode.Common.Text.{Bytes}
use ridingthecode.Common.Fault.{Fault, ok, ◌>>=◌}
use ridingthecode.Packet.{
  PacketHdr, IsPacket, ip_len, data_load, ack, payload, from_bytes, to_bytes,
}
use ridingthecode.Packet.Layout.{from_bytes-to_bytes}
use ridingthecode.Client.Transfer.{TransferController, verify_ack, ready}
use ridingthecode.Client.Transfer.Packets.{padded, ip_field_fits, length-padded}
use ridingthecode.Client.Transfer.Window.{View, InWindow, verify_ack_lem}
use ridingthecode.Client.Node.{
  Node, Network, Sent, set_front, check_packet, write_udp_socket, transmit_data, transmit_next,
  ack_packet, after_write,
}
use ridingthecode.Client.Node.Acks.{Fronts}

-- What the receiver of a data packet answers, if `src` is what it reads of the source address.
reply_to : Bytes → Bytes → Fault Bytes
reply_to src raw = do packet ← ack_packet (from_bytes raw).sequence_number src; ok (to_bytes packet)

-- The answer to the first of the datagrams sent comes back.
unfoldable pub answer : Network → Bytes → Node → List Sent → Fault Node
unfolding reply_to
answer net src s [] = ok s
answer net src s (m ∷ rest) = do
  reply ← reply_to src m.content
  (s', _) ← check_packet net s reply
  ok s'

-- One packet out and its ack back.
unfoldable pub exchange : Network → ℤ → Bytes → Node → Fault Node
unfolding answer
exchange net now src s = do (_, s', sent) ← transmit_data net now s; answer net src s' sent

-- the ack for packet number `seq`, sent to `src`
unfoldable pub acked_by : Bytes → ℕ → PacketHdr
acked_by src a = record {
  ptype = ack;
  ack_value = pos a;
  window_size = pos 0;
  sequence_number = pos (a + 1);
  dest_ip = padded src;
  src_ip = replicate 20 0;
  load = replicate data_load b'A';
}

ack_packet_lem :
    (src : Bytes) (a : ℕ) → length src ≤ ip_len → ack_packet (pos (a + 1)) src ≡ ok (acked_by src a)
unfolding ack_packet acked_by
ack_packet_lem src a h = ground (arith, ip_field_fits src h, pos_sub (a + 1) 1, back a)
  where
    back : (a : ℕ) → a + 1 - 1 ≡ a
    back a = omega arith

pub acked_by-IsPacket : (src : Bytes) (a : ℕ) → a + 1 < 2 ^ 31 → IsPacket (acked_by src a)
unfolding acked_by
acked_by-IsPacket src a h = record {
  ptype_fits = omega arith;
  ack_fits = omega arith;
  window_fits = omega arith;
  sequence_fits = omega arith;
  dest_len = length-padded src;
  src_len = length-replicate 20 (zero + zero);
  load_len = length-replicate {A = ℕ} data_load b'A';
}

-- The network finds the emulator and takes every datagram.
pub record Reaches (net : Network) (s : Node) : Type 0 where
  pub address : Bytes
  pub found : net.resolve s.server_ip ≡ some address
  pub taken : (raw : Bytes) → net.deliver address raw ≡ true

write_data :
    (net : Network) (s : Node) (t : TransferController) (raw : Bytes) (r : Reaches net s)
    → Fronts s t
    → (from_bytes raw).ptype ≡ payload
    → write_udp_socket net s raw ≡ ok (pos 0, record { address = r.address; content = raw } ∷ [])
unfolding write_udp_socket
write_data net s t raw r f e = ground (arith, f.at_front, r.found, r.taken raw)

-- the client after it has sent a data packet of its front transfer, which is then `t`
unfoldable pub sent_data : ℤ → Node → TransferController → Node
sent_data now s t = record (set_front s t) { timer = now; timer_enabled = true }

set_front-Fronts : (s : Node) (t t' : TransferController) → Fronts s t → Fronts (set_front s t') t'
set_front-Fronts s t t' f = record { others = f.others; at_front = rw f.at_front refl }

pub transmit_ready :
    (net : Network) (now : ℤ) (s : Node) (t t' : TransferController) (raw : Bytes)
    → (r : Reaches net s) → Fronts s t
    → (from_bytes raw).ptype ≡ payload
    → transmit_next net now s (ready raw t')
      ≡ ok (pos 0, sent_data now s t', record { address = r.address; content = raw } ∷ [])
unfolding transmit_next after_write sent_data
transmit_ready net now s t t' raw r f e = ground (
  arith,
  write_data net (set_front s t') t' raw
      (record { address = r.address; found = r.found; taken = r.taken }) (set_front-Fronts s t t' f)
      e,
)

pub check_packet_good :
    (net : Network) (s : Node) (t : TransferController) (raw : Bytes) (n w a k q : ℕ)
    → Fronts s t
    → View t n w a q k
    → w * k < 2 ^ 31
    → (from_bytes raw).ptype ≡ ack
    → (from_bytes raw).ack_value ≡ pos a
    → check_packet net s raw
      ≡ ok (record (set_front s (verify_ack t (from_bytes raw)).1) { timer_enabled = false }, [])
unfolding check_packet
check_packet_good net s t raw n w a k q f v b e h =
    ground (arith, f.at_front, (verify_ack_lem t (from_bytes raw) n w a q k v b).0 h)

-- what an exchange leaves of the client, `t` being its front transfer after the packet is sent
acked_node : ℤ → Node → TransferController → PacketHdr → Node
acked_node now s t p = record (set_front (sent_data now s t) (verify_ack t p).1) {
  timer_enabled = false;
}

reply_lem :
    (src raw : Bytes) (a : ℕ)
    → length src ≤ ip_len
    → (from_bytes raw).sequence_number ≡ pos (a + 1)
    → reply_to src raw ≡ ok (to_bytes (acked_by src a))
unfolding reply_to
reply_lem src raw a h e = rw (e, ack_packet_lem src a h)

pub answer_lem :
    (net : Network) (now : ℤ) (src raw address : Bytes) (s : Node) (t : TransferController)
    (n w a k q : ℕ)
    → Fronts s t
    → View t n w a q k
    → w * k < 2 ^ 31
    → length src ≤ ip_len
    → a + 1 < 2 ^ 31
    → (from_bytes raw).sequence_number ≡ pos (a + 1)
    → answer net src s (record { address = address; content = raw } ∷ [])
      ≡ ok (record (set_front s (verify_ack t (acked_by src a)).1) { timer_enabled = false })
unfolding answer acked_by
answer_lem net now src raw address s t n w a k q f v m h b e = ground (
  arith,
  reply_lem src raw a h e,
  check_packet_good net s t (to_bytes (acked_by src a)) n w a k q f v m (ap (λ p. p.ptype) same)
      (ap (λ p. p.ack_value) same),
  same,
)
  where
    same : from_bytes (to_bytes (acked_by src a)) ≡ acked_by src a
    same = from_bytes-to_bytes (acked_by-IsPacket src a b)

-- How far a client's front transfer is: `a` of `n` packets sent and acknowledged, the next one due.
pub record Progress (net : Network) (s : Node) (n w a : ℕ) : Type 0 where
  pub reaches : Reaches net s
  pub t : TransferController
  pub k : ℕ
  pub fronts : Fronts s t
  pub view : View t n w a (suc a) k
  pub inside : InWindow n w a (suc a) k
