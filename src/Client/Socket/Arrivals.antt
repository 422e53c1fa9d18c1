-- ===== src/Client/Socket/Arrivals.antt =====
-- What `recieve_data` of the client makes of the first thing that a read of the socket meets.
use ridingthecode.Common.{
  ℕ, ◌^◌, ◌≤◌, ◌<◌, ◌≡◌, refl, sym, ap, ◌∙◌, List, [], ◌∷◌, ◌++◌, arith, some, length, take,
  length-take, copy_to, copy_to_nil, copy_to_front, drop_all, append-nil,
}
use ridingthecode.Common.Text.{Bytes}
use ridingthecode.Packet.{p_size}
use ridingthecode.Client.Node.{Node, Network, check_packet}
use ridingthecode.Client.Socket.{
  Arrival, datagram, recv_error, whole, stored, read_loop, receive_data, checked, finish_receive,
}

-- Nothing is left to wait for: a datagram of a packet's size or more, or an error.
abbrev pub Enough : Arrival → Type 0
Enough (datagram d) = p_size ≤ length d
Enough recv_error = Unit {0}

-- The packet that is then answered.
abbrev pub packet_seen : Bytes → Arrival → Bytes
packet_seen garbage (datagram d) = take p_size d
packet_seen garbage recv_error = garbage

stored_front : (packet bs : Bytes) → stored packet 0 bs ≡ some (copy_to packet 0 bs)
stored_front packet [] = ap some (sym (copy_to_nil packet 0))
stored_front packet (b ∷ bs) = refl

stored_whole :
    (n : ℕ) (d packet : Bytes)
    → length packet ≡ n
    → n ≤ length d
    → stored packet 0 (take n d) ≡ some (take n d)
stored_whole n d packet h k =
    stored_front packet (take n d)
    ∙ ap some (
        copy_to_front packet (take n d) 0 (omega (arith, length-take n d))
        ∙ ap (λ l. take n d ++ l)
            (drop_all (length (take n d)) packet (omega (arith, length-take n d)))
        ∙ append-nil (take n d))

read_loop_fits :
    (m : ℕ) (d : Bytes) (rest : List Arrival) (packet packet' : Bytes)
    → stored packet 0 (take m d) ≡ some packet'
    → p_size ≤ length (take m d)
    → length (take m d) < 2 ^ 64
    → read_loop (datagram d ∷ rest) 0 m packet ≡ whole packet' rest
unfolding read_loop
read_loop_fits m d rest packet packet' e l h = ground arith

read_loop_error :
    (m : ℕ) (rest : List Arrival) (packet : Bytes)
    → read_loop (recv_error ∷ rest) 0 m packet ≡ whole packet rest
unfolding read_loop
read_loop_error m rest packet = ground arith

read_loop_first :
    (garbage : Bytes) (a : Arrival) (rest : List Arrival)
    → length garbage ≡ p_size
    → Enough a
    → read_loop (a ∷ rest) 0 p_size garbage ≡ whole (packet_seen garbage a) rest
read_loop_first garbage (datagram d) rest h k =
    read_loop_fits p_size d rest garbage (take p_size d) (stored_whole p_size d garbage h k)
      (omega (arith, length-take p_size d)) (omega (arith, length-take p_size d))
read_loop_first garbage recv_error rest h k = read_loop_error p_size rest garbage

-- A datagram of at least a packet's size is answered as the packet that its first bytes are; an error
-- of `recvfrom` makes the client answer whatever the uninitialised packet holds.
pub receive_data-check_packet :
    (net : Network) (garbage : Bytes) (s : Node) (a : Arrival) (rest : List Arrival)
    → length garbage ≡ p_size
    → Enough a
    → receive_data net garbage s (a ∷ rest)
      ≡ checked rest (check_packet net s (packet_seen garbage a))
unfolding receive_data finish_receive
receive_data-check_packet net garbage s a rest h k =
    ap (finish_receive net s) (read_loop_first garbage a rest h k)
