-- ===== src/Client/Node/Acks.antt =====
-- How the client answers packets, and where that goes wrong.
use ridingthecode.Common.{
  ◌==◌, ℕ, suc, ◌+◌, ◌*◌, ◌/◌, ◌^◌, ◌<◌, ◌≤◌, ◌≡◌, ◌≢◌, refl, ap, ◌∙◌, List, [], ◌∷◌, arith,
}
use ridingthecode.Common.Int.{ℤ, pos, eq_ℤ, eq_ℤ_iff, ◌+ℤ◌}
use ridingthecode.Common.Text.{Bytes}
use ridingthecode.Common.Fault.{Fault, ok, fault, ◌>>=◌}
use ridingthecode.Packet.{PacketHdr, p_size, ack, eot, from_bytes, to_bytes}
use ridingthecode.Client.Transfer.{TransferController, read_next_packet, verify_ack, go_back, ready}
use ridingthecode.Client.Transfer.Packets.{nth_packet}
use ridingthecode.Client.Transfer.Window.{View, InWindow, verify_ack_lem, go_back_lem}
use ridingthecode.Client.Transfer.Next.{read_next_zero, read_next_ready, sent-View}
use ridingthecode.Client.Node.{
  Node, Network, front, set_front, check_packet, send_ack, write_udp_socket, transmit_data,
  transmit_next, quot, c_string, drop,
}

write_udp_socket_empty :
    (net : Network) (s : Node) (raw : Bytes) → s.transfers ≡ [] → write_udp_socket net s raw ≡ fault
unfolding write_udp_socket
write_udp_socket_empty net s raw e = rw (e, front)

bind_fault :
    {A B : Type 0} (m : Fault A) (f : A → Fault B) → ((a : A) → f a ≡ fault) → (m >>= f) ≡ fault
bind_fault (ok a) f h = h a
bind_fault fault f h = refl

send_ack_empty :
    (net : Network) (s : Node) (seq : ℤ) (src_ip : Bytes)
    → s.transfers ≡ []
    → send_ack net s seq src_ip ≡ fault
unfolding send_ack
send_ack_empty net s seq src_ip e =
    bind_fault _ _ (λ packet. write_udp_socket_empty net s (to_bytes packet) e)

-- A client with no transfer of its own follows a pointer that is not there on every packet but an
-- end packet: on a data packet, before it can acknowledge it, and on an ack.
pub check_packet_empty :
    (net : Network) (s : Node) (raw : Bytes)
    → s.transfers ≡ []
    → (from_bytes raw).ptype ≢ eot
    → check_packet net s raw ≡ fault
unfolding check_packet
check_packet_empty net s raw e h = ground (
  arith,
  eq_ℤ_iff (from_bytes raw).ptype eot,
  h,
  send_ack_empty net s (from_bytes raw).sequence_number (c_string (drop 36 raw)) e,
)

-- A client whose front transfer `t` has this view.
pub record Fronts (s : Node) (t : TransferController) : Type 0 where
  pub others : List TransferController
  pub at_front : s.transfers ≡ t ∷ others

pub complete_test :
    (t : TransferController) (n w a k s : ℕ)
    → View t n w a s k
    → eq_ℤ (t.current_ack +ℤ pos 1) (quot t.transfer_size p_size) ≡ (a == n)
complete_test t n w a k s v = rw (v.acked, v.total, whole n) (ground arith)
  where
    whole : (n : ℕ) → n * p_size / p_size ≡ n
    whole n = omega arith

-- While the front transfer, whose counters are those of a view, has a packet that is not
-- acknowledged, `write_udp_socket` sends no end packet and returns 1.
pub eot_held_back :
    (net : Network) (s : Node) (t : TransferController) (raw : Bytes) (n w a k q : ℕ)
    → Fronts s t
    → View t n w a q k
    → a ≢ n
    → (from_bytes raw).ptype ≡ eot
    → write_udp_socket net s raw ≡ ok (pos 1, [])
unfolding write_udp_socket
eot_held_back net s t raw n w a k q f v h e =
    ground (arith, f.at_front, complete_test t n w a k q v)

pub check_packet_bad :
    (net : Network) (s : Node) (t : TransferController) (raw : Bytes) (n w a k q : ℕ)
    → Fronts s t
    → View t n w a q k
    → w * k < 2 ^ 31
    → (from_bytes raw).ptype ≡ ack
    → (from_bytes raw).ack_value ≢ pos a
    → check_packet net s raw ≡ ok (set_front s (go_back t), [])
unfolding check_packet
check_packet_bad net s t raw n w a k q f v b e h =
    ground (arith, f.at_front, (verify_ack_lem t (from_bytes raw) n w a q k v b).1 h)

pub transmit_front :
    (net : Network) (now : ℤ) (s : Node) (t : TransferController) (ts : List TransferController)
    → s.transfers ≡ t ∷ ts
    → transmit_data net now s ≡ (read_next_packet t >>= transmit_next net now s)
unfolding transmit_data
transmit_front net now s t ts e = ground arith

-- With the counters of the front transfer in its window, below 2 ^ 31, and no packet acknowledged
-- yet, after an
-- ack that is not the awaited one the next call of `transmit_data` reads before the start of the
-- transfer's buffer.
pub bad_ack_at_start :
    (net : Network) (now : ℤ) (s : Node) (t : TransferController) (raw : Bytes) (n w k q : ℕ)
    → Fronts s t
    → View t n w 0 q k
    → InWindow n w 0 q k
    → w < 2 ^ 31
    → (from_bytes raw).ptype ≡ ack
    → (from_bytes raw).ack_value ≢ pos 0
    → (check_packet net s raw >>= λ r. transmit_data net now r.0) ≡ fault
bad_ack_at_start net now s t raw n w k q f v i b e h =
    ap (λ m. m >>= λ r. transmit_data net now r.0)
      (check_packet_bad net s t raw n w 0 k q f v (omega (arith, i.base_recent)) e h)
    ∙ transmit_front net now (set_front s (go_back t)) (go_back t) f.others (fronted s t f)
    ∙ ap (λ m. m >>= transmit_next net now (set_front s (go_back t)))
        (read_next_zero (go_back t) n w 0 k (go_back_lem t n w 0 q k v i (omega arith)).0
          (omega (arith, i.base_recent)))
  where
    fronted :
        (s : Node) (t : TransferController) (f : Fronts s t)
        → (set_front s (go_back t)).transfers ≡ go_back t ∷ f.others
    fronted s t f = rw f.at_front refl

-- With the counters in the window, the packets and the window together below 2 ^ 31 and some packet
-- acknowledged, going back hands out the last
-- acknowledged packet again, and the receiver's ack for that packet is then refused.
pub go_back_resends :
    (t : TransferController) (reply : PacketHdr) (n w a k q : ℕ)
    → View t n w (suc a) q k
    → InWindow n w (suc a) q k
    → suc a ≤ n
    → n + w < 2 ^ 31
    → reply.ack_value ≡ (nth_packet t.ipdest t.src_ip t.window_size a).ack_value
    → (t' : TransferController) × (read_next_packet (go_back t)
        ≡ ok (ready (to_bytes (nth_packet t.ipdest t.src_ip t.window_size a)) t'))
      × (verify_ack t' reply ≡ (0, t'))
unfolding go_back nth_packet
go_back_resends t reply n w a k q v i h b e = (
  record (go_back t) { current_seq = (go_back t).current_seq +ℤ pos 1 },
  read_next_ready (go_back t) n w (suc a) a k back h (omega arith)
      (omega (arith, i.base_recent, b, h)),
  (verify_ack_lem _ reply n w (suc a) (suc a + 1) k (sent-View (go_back t) n w (suc a) a k back)
        (omega (arith, i.base_recent, b, h))).1
      (other a reply.ack_value e),
)
  where
    back : View (go_back t) n w (suc a) (suc a) k
    back = (go_back_lem t n w (suc a) q k v i h).0

    other : (a : ℕ) (x : ℤ) → x ≡ pos a → x ≢ pos (suc a)
    other a x e f = ground arith
