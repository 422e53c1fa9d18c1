-- ===== src/Sender/Client.antt =====
-- TCP_RUDP_Packet_Sender/TCP_UDP_Transfer_Assgn2/ClientMode.cpp: the packets of a transfer and how they are
-- sent. The packets share one buffer, so each is only a length.
pub mod Delivery
use ridingthecode.Common.{
  ℕ, zero, suc, ◌+◌, ◌-◌, ◌*◌, List, [], ◌∷◌, ◌++◌, Bool, true, false, Option, none, some, length,
  take, set, get_or, replicate, copy_to, ltb, map, ◌==◌, leb, ◌^◌, ◌&&◌, if◌then◌else◌, ◌||◌,
}
use ridingthecode.Common.Int.{ℤ, pos, negsuc}
use ridingthecode.Common.Text.{Bytes, same_bytes, c_string, codes}
use ridingthecode.Common.Fault.{Fault, ok, fault, ◌>>=◌}
use ridingthecode.Sender.Header.{Header, flags}

-- the entries of `wsaBuffers`, which all point to `buff`
pub record Packets : Type 0 where
  pub buff : Bytes
  pub lens : List ℕ
  pub total : ℕ

-- how many entries `wsaBuffers` has: MAX_PACKETS of Resource.h
abbrev pub max_packets : ℕ
max_packets = 2000000

-- The loop over the file, with the pieces that `ReadFile` gives: each overwrites the buffer. An entry behind
-- `wsaBuffers`, or a sum that no `int` holds, is a fault.
unfoldable pub read_file : List Bytes → Packets → Fault Packets
read_file [] p = ok p
read_file (part ∷ parts) p =
    let rest = read_file parts record {
      buff = copy_to p.buff 0 part;
      lens = p.lens ++ length part ∷ [];
      total = p.total + length part;
    } in
    if length part == 0
    then ok p
    else if ltb (length p.lens) max_packets && ltb (p.total + length part) (2 ^ 31)
    then rest
    else fault

unfoldable pub file_packets : Bytes → List Bytes → Fault Packets
file_packets buff parts = read_file parts (record { buff = buff; lens = []; total = 0 })

-- the packets of filler; a packet has a positive size
unfoldable pub filler_packets : ℕ → ℕ → Fault Packets
filler_packets packet_size count =
    if leb count max_packets && ltb (packet_size * count) (2 ^ 31)
    then ok (record {
      buff = set (replicate packet_size b'p') (packet_size - 1) 0;
      lens = replicate count packet_size;
      total = packet_size * count;
    })
    else fault

-- what is sent for each entry
abbrev pub payloads : Packets → List Bytes
payloads p = map (λ n. take n p.buff) p.lens

abbrev pub header_of : ℕ → ℤ → Packets → Header
header_of packet_size mode p = record {
  total_size = pos p.total;
  packet_size = pos packet_size;
  packets = pos (length p.lens);
  mode = mode;
}

-- The sends of a list of buffers, with whether each call works: it stops at the first that fails.
unfoldable pub send_all : List Bytes → List Bool → List Bytes
send_all [] works = []
send_all (b ∷ bs) [] = b ∷ send_all bs []
send_all (b ∷ bs) (w ∷ ws) = let rest = send_all bs ws in if w then b ∷ rest else []

-- `tcp_deliver_packets`, where the header's own call is not looked at
unfoldable pub tcp_deliver_packets : ℕ → ℤ → List Bool → Packets → Fault (List Bytes)
tcp_deliver_packets packet_size mode works p = do
  header ← flags (header_of packet_size mode p)
  ok (header ∷ send_all (payloads p) works)

-- `receive_acknowledge`, with the six bytes of `ack` after the call
unfoldable pub receive_acknowledge : Bytes → Bool
receive_acknowledge answer = same_bytes (c_string answer) (codes ";ACK;")

-- One round of a loop that sends: whether `WSASendTo` works, and what `recvfrom` leaves in `ack`.
abbrev pub Round : Type 0
Round = Bool × Bytes

-- How sending goes: what was given to `WSASendTo`, and, where all is acknowledged, how many were lost and
-- the rounds not used. It ends at a send of data that fails, or waits where the rounds end first.
pub data Outcome : Type 0 where
  delivered : List Bytes → ℕ → List Round → Outcome
  failed : List Bytes → Outcome
  waiting : List Bytes → Outcome

-- one more send, which was lost
lost_once : Bytes → Outcome → Outcome
lost_once b (delivered sends lost rest) = delivered (b ∷ sends) (lost + 1) rest
lost_once b (failed sends) = failed (b ∷ sends)
lost_once b (waiting sends) = waiting (b ∷ sends)

-- The loop that sends one buffer until it is acknowledged; the loop of the header goes on where a send
-- fails.
unfoldable pub send_until : Bool → Bytes → List Round → Outcome
unfolding lost_once
send_until is_header b [] = waiting (b ∷ [])
send_until is_header b ((works, answer) ∷ rounds) =
    let again = lost_once b (send_until is_header b rounds) in
    if works || is_header
    then if receive_acknowledge answer then delivered (b ∷ []) 0 rounds else again
    else failed (b ∷ [])

-- what is sent and lost in all
add_sends : List Bytes → ℕ → Outcome → Outcome
add_sends sends lost (delivered more lost' rest) = delivered (sends ++ more) (lost + lost') rest
add_sends sends lost (failed more) = failed (sends ++ more)
add_sends sends lost (waiting more) = waiting (sends ++ more)

-- what comes behind, in the rounds that are left
unfoldable pub and_then : Outcome → (List Round → Outcome) → Outcome
unfolding add_sends
and_then (delivered sends lost rest) later = add_sends sends lost (later rest)
and_then (failed sends) later = failed sends
and_then (waiting sends) later = waiting sends

-- the buffers of data one after the other
unfoldable pub send_each : List Bytes → List Round → Outcome
unfolding and_then
send_each [] rounds = delivered [] 0 rounds
send_each (b ∷ bs) rounds = and_then (send_until false b rounds) (send_each bs)

-- `udp_deliver_packets`, where the address is found: the header goes first
unfoldable pub udp_deliver_packets : ℕ → ℤ → List Round → Packets → Fault Outcome
udp_deliver_packets packet_size mode rounds p = do
  header ← flags (header_of packet_size mode p)
  ok (and_then (send_until true header rounds) (send_each (payloads p)))
