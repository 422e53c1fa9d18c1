-- ===== src/Client/Socket.antt =====
-- `recieve_data` of 7005_NVirt/Client/src/Controller.cpp: a packet is read from the socket, and
-- answered. Arriving datagrams and what the uninitialised packet holds are arguments.
pub mod Arrivals
mod Tests
use ridingthecode.Common.{
  ℕ, ◌+◌, ◌-◌, ◌^◌, ◌%◌, ◌≤◌, ◌≡◌, refl, List, [], ◌∷◌, arith, Option, none, some, length, take,
  copy_to, ltb, ◌==◌, if◌then◌else◌,
}
use ridingthecode.Common.Text.{Bytes}
use ridingthecode.Common.Fault.{Fault, ok, fault, ◌>>=◌}
use ridingthecode.Packet.{p_size}
use ridingthecode.Client.Node.{Node, Network, Sent, check_packet}

-- what a `recvfrom` of the socket meets
pub data Arrival : Type 0 where
  datagram : Bytes → Arrival
  recv_error : Arrival

-- the bytes that one `recvfrom` of at most `n` stores
got : ℕ → Arrival → Bytes
got n (datagram d) = take n d
got n recv_error = []

-- what it returns, as `size_t`: -1 is the largest one
returned : ℕ → Arrival → ℕ
returned n (datagram d) = length (take n d)
returned n recv_error = 2 ^ 64 - 1

-- the packet after bytes are stored `total` packets behind its start
abbrev pub stored : Bytes → ℕ → Bytes → Option Bytes
stored packet total [] = some packet
stored packet total (b ∷ bs) = if total == 0 then some (copy_to packet 0 (b ∷ bs)) else none

-- `overrun` is a store outside the packet: `&packet + total_read` counts in packets, not in bytes.
pub data Reading : Type 0 where
  whole : Bytes → List Arrival → Reading
  waiting : Reading
  overrun : Reading

-- `while ((total_read += (n = recvfrom(…))) < P_SIZE) bytes_to_read -= n;`
unfoldable pub read_loop : List Arrival → ℕ → ℕ → Bytes → Reading
unfolding got returned
read_loop [] total to_read packet = waiting
read_loop (a ∷ rest) total to_read packet =
    let n = returned to_read a in
    let total' = (total + n) % 2 ^ 64 in
    elim (stored packet total (got to_read a)) [
      | none ↦ overrun
      | some packet' ↦
          let again = read_loop rest total' ((to_read + 2 ^ 64 - n) % 2 ^ 64) packet' in
          if ltb total' p_size then again else whole packet' rest
    ]

-- A call of `recieve_data`: it returns, or waits in `recvfrom`.
pub data Received : Type 0 where
  received : Node → List Sent → List Arrival → Received
  blocked : Received
  undefined : Received

abbrev pub checked : List Arrival → Fault (Node × List Sent) → Received
checked rest (ok (s, sent)) = received s sent rest
checked rest fault = undefined

finish_receive : Network → Node → Reading → Received
finish_receive net s (whole packet rest) = checked rest (check_packet net s packet)
finish_receive net s waiting = blocked
finish_receive net s overrun = undefined

-- `garbage` is what the uninitialised `packet` holds.
unfoldable pub receive_data : Network → Bytes → Node → List Arrival → Received
unfolding finish_receive
receive_data net garbage s arrivals = finish_receive net s (read_loop arrivals 0 p_size garbage)
