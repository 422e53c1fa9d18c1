-- ===== src/Client/Node/Completion.antt =====
-- The whole of a transfer over a network that loses nothing.
use ridingthecode.Common.{
  ℕ, zero, suc, ◌+◌, ◌^◌, ◌≤◌, ◌<◌, ◌≡◌, refl, ap, ◌∙◌, subst, [], ◌∷◌, arith, length, replicate,
  length-replicate, inl,
}
use ridingthecode.Common.Int.{ℤ, pos}
use ridingthecode.Common.Text.{Bytes}
use ridingthecode.Common.Fault.{Fault, ok, ◌>>=◌}
use ridingthecode.Packet.{PacketHdr, IsPacket, ip_len, data_load, eot, from_bytes, to_bytes}
use ridingthecode.Packet.Layout.{from_bytes-to_bytes}
use ridingthecode.Client.Transfer.{TransferController, finished, create_eot_packet}
use ridingthecode.Client.Transfer.Packets.{padded, ip_field_fits, length-padded}
use ridingthecode.Client.Transfer.Window.{View}
use ridingthecode.Client.Transfer.Next.{read_next_end}
use ridingthecode.Client.Node.{
  Node, Network, Sent, pop_front, write_udp_socket, transmit_data, transmit_next, after_write,
}
use ridingthecode.Client.Node.Acks.{Fronts, transmit_front, complete_test}
use ridingthecode.Client.Node.Delivery.{exchange, Progress, Reaches}
use ridingthecode.Client.Node.Exchange.{exchange_lem}

-- the end packet of a transfer whose addresses fit
pub end_packet : TransferController → PacketHdr
end_packet t = record {
  ptype = eot;
  ack_value = pos 0;
  window_size = pos 0;
  sequence_number = pos 0;
  dest_ip = padded t.ipdest;
  src_ip = padded t.src_ip;
  load = replicate data_load 0;
}

create_eot_packet_lem :
    (t : TransferController)
    → length t.ipdest ≤ ip_len
    → length t.src_ip ≤ ip_len
    → create_eot_packet t ≡ ok (end_packet t)
unfolding create_eot_packet end_packet
create_eot_packet_lem t h k = rw (ip_field_fits t.ipdest h, ip_field_fits t.src_ip k)

end_packet-IsPacket : (t : TransferController) → IsPacket (end_packet t)
unfolding end_packet
end_packet-IsPacket t = record {
  ptype_fits = omega arith;
  ack_fits = omega arith;
  window_fits = omega arith;
  sequence_fits = omega arith;
  dest_len = length-padded t.ipdest;
  src_len = length-padded t.src_ip;
  load_len = length-replicate data_load (zero + zero);
}

-- `end_packet` is what the datagram carries.
pub end_ptype : (t : TransferController) → (from_bytes (to_bytes (end_packet t))).ptype ≡ eot
end_ptype t =
    ap (λ p. p.ptype) (from_bytes-to_bytes (end_packet-IsPacket t)) ∙ unfold end_packet in refl

write_end :
    (net : Network) (s : Node) (t : TransferController) (raw : Bytes) (n w k : ℕ)
    (r : Reaches net s)
    → Fronts s t
    → View t n w n (suc n) k
    → write_udp_socket net s raw ≡ ok (pos 0, record { address = r.address; content = raw } ∷ [])
unfolding write_udp_socket
write_end net s t raw n w k r f v =
    ground (arith, f.at_front, complete_test t n w n k (suc n) v, r.found, r.taken raw)

transmit_end :
    (net : Network) (now : ℤ) (s : Node) (t : TransferController) (raw : Bytes) (n w k : ℕ)
    (r : Reaches net s)
    → Fronts s t
    → View t n w n (suc n) k
    → (from_bytes raw).ptype ≡ eot
    → transmit_next net now s (finished raw)
      ≡ ok (pos 0, pop_front s, record { address = r.address; content = raw } ∷ [])
unfolding transmit_next after_write
transmit_end net now s t raw n w k r f v e = ground (arith, write_end net s t raw n w k r f v)

-- With all packets acknowledged, the next call sends the end packet and drops the transfer.
transmit_last :
    (net : Network) (now : ℤ) (s : Node) (n w : ℕ) (p : Progress net s n w n)
    → n + w < 2 ^ 31
    → transmit_data net now s
      ≡ ok (
        pos 0,
        pop_front s,
        record { address = p.reaches.address; content = to_bytes (end_packet p.t) } ∷ [],
      )
transmit_last net now s n w p b =
    transmit_front net now s p.t p.fronts.others p.fronts.at_front
    ∙ ap (λ m. m >>= transmit_next net now s)
        (read_next_end p.t n w n (suc n) p.k (end_packet p.t) p.view (inl (omega arith))
          (omega arith) (omega (arith, p.inside.base_recent, b))
          (create_eot_packet_lem p.t p.view.dest_fits p.view.src_fits))
    ∙ transmit_end net now s p.t (to_bytes (end_packet p.t)) n w p.k p.reaches p.fronts p.view
        (end_ptype p.t)

-- `k` exchanges in a row
pub exchanges : ℕ → Network → ℤ → Bytes → Node → Fault Node
exchanges zero net now src s = ok s
exchanges (suc k) net now src s = do s' ← exchange net now src s; exchanges k net now src s'

exchanges_lem :
    (k a : ℕ) (net : Network) (now : ℤ) (src : Bytes) (s : Node) (n w : ℕ)
    → Progress net s n w a
    → length src ≤ ip_len
    → 0 < w
    → n + w < 2 ^ 31
    → a + k ≡ n
    → (s' : Node) × (exchanges k net now src s ≡ ok s') × Progress net s' n w n
unfolding exchanges
exchanges_lem zero a net now src s n w p h w0 w1 e =
    (s, refl, subst (λ m. Progress net s n w m) (zero_more a n e) p)
  where
    zero_more : (a n : ℕ) → a + 0 ≡ n → a ≡ n
    zero_more a n e = omega arith
exchanges_lem (suc k) a net now src s n w p h w0 w1 e =
    let (s₁, e₁, p₁) = exchange_lem net now src s n w a p h w0 w1 (omega arith) in
    let (s₂, e₂, p₂) = exchanges_lem k (a + 1) net now src s₁ n w p₁ h w0 w1 (omega arith) in
    (s₂, ap (λ m. m >>= exchanges k net now src) e₁ ∙ e₂, p₂)

-- Over a network that finds the emulator and takes every datagram, from the start of a transfer of
-- `n` packets, `n` exchanges go without a fault, and the next call of `transmit_data` sends the end
-- packet and drops the transfer; an `int` holds the size of the packets and one more, and
-- `n` plus the window, which is positive; the source address fits its field.
pub transfer_completes :
    (net : Network) (now : ℤ) (src : Bytes) (s : Node) (n w : ℕ)
    → Progress net s n w 0
    → length src ≤ ip_len
    → 0 < w
    → n + w < 2 ^ 31
    → (s' : Node) × (m : Sent) × (exchanges n net now src s ≡ ok s')
      × (transmit_data net now s' ≡ ok (pos 0, pop_front s', m ∷ []))
      × ((from_bytes m.content).ptype ≡ eot)
transfer_completes net now src s n w p h w0 w1 =
    let (s', e, q) = exchanges_lem n 0 net now src s n w p h w0 w1 (omega arith) in
    (
      s',
      record { address = q.reaches.address; content = to_bytes (end_packet q.t) },
      e,
      transmit_last net now s' n w q w1,
      end_ptype q.t,
    )
