-- ===== src/Router/Relay.antt =====
-- 7005_NVirt/NVirt/src/Controller.cpp: the emulator's loop. It stores the packets that arrive in the
-- ring and sends them on, oldest first, with the loss and the delay of the noise controller.
-- Arriving datagrams, `rand()`, the name service and `sendto` are arguments; stderr is left out.
pub mod Queue
pub mod Receive
pub mod Transmit
pub mod Turns
pub mod Rounds
mod Tests
use ridingthecode.Common.{
  ℕ, ◌+◌, ◌-◌, List, [], ◌∷◌, ◌++◌, ◌≡◌, Bool, true, false, Option, none, some, min, length, take,
  replicate, copy_to, ltb, leb, if◌then◌else◌, map,
}
use ridingthecode.Common.Int.{ℤ, pos, negsuc, ◌+ℤ◌, ◌-ℤ◌, ltb_ℤ, eq_ℤ, pos_part}
use ridingthecode.Common.Text.{Bytes, codes}
use ridingthecode.Packet.{PacketHdr, p_size, buf_len, from_bytes, dest_text, get_readable_type}
use ridingthecode.Router.Ring.{CircularBuffer, new_buffer, write, read, sub_size}
use ridingthecode.Router.Noise.{
  NoiseController, Message, Outcome, running, exited, aborted, new_noise_controller, check_command,
  packet_drop_check,
}

-- what `notify` prints of a packet
pub record Note : Type 0 where
  pub direction : Bytes
  pub packet_type : Bytes
  pub dest : Bytes
  pub ack_no : ℤ
  pub seq_no : ℤ

pub data Line : Type 0 where
  said : Message → Line
  noted : Note → Line
  lost : Bytes → ℤ → ℤ → Line

pub record Controller : Type 0 where
  pub buffer : CircularBuffer
  pub noise : NoiseController
  pub console : List Line
  pub log : List Note

unfoldable pub new_controller : (Bytes → Bool) → Controller
new_controller can_open = record {
  buffer = new_buffer buf_len;
  noise = new_noise_controller can_open;
  console = [];
  log = [];
}

-- `type > 0` is RCV; the note goes to the terminal, and to the log if a file is open.
unfoldable pub notify : Controller → ℕ → Bytes → Controller
notify s type raw = record s {
  console = s.console ++ noted note ∷ [];
  log = elim s.noise.log_file [ none ↦ s.log | some _ ↦ s.log ++ note ∷ [] ];
}
  where
    pkt : PacketHdr
    pkt = from_bytes raw

    note : Note
    note = record {
      direction = if ltb 0 type then codes "RECV | " else codes "SND  | ";
      packet_type = get_readable_type pkt.ptype;
      dest = dest_text raw;
      ack_no = pkt.ack_value;
      seq_no = pkt.sequence_number;
    }

-- what a `read` of the socket meets
pub data Arrival : Type 0 where
  datagram : Bytes → Arrival
  read_error : Arrival

-- `memset(&packet, 0, P_SIZE)`
pub blank : Bytes
blank = replicate p_size 0

-- `overrun` is a store outside the packet: `&packet + total_read` counts in packets, not in bytes.
pub data Reading : Type 0 where
  whole : Bytes → ℤ → List Arrival → Reading
  waiting : Reading
  overrun : Reading

-- the bytes that one `read` of at most `n` stores; the rest of the datagram is gone
got : ℕ → Arrival → Bytes
got n (datagram d) = take n d
got n read_error = []

-- what that `read` returns
returned : ℕ → Arrival → ℤ
returned n (datagram d) = pos (length (take n d))
returned n read_error = negsuc 0

-- the packet after bytes are stored `total` packets behind its start
pub stored : Bytes → ℤ → Bytes → Option Bytes
stored packet total [] = some packet
stored packet total (b ∷ bs) = if eq_ℤ total (pos 0) then some (copy_to packet 0 (b ∷ bs)) else none

-- `while ((total_read += (n = read(…))) < P_SIZE) bytes_to_read -= n;`
unfoldable pub read_loop : List Arrival → ℤ → ℤ → Bytes → Reading
unfolding got returned
read_loop [] total to_read packet = waiting
read_loop (a ∷ rest) total to_read packet =
    let n = returned (pos_part to_read) a in
    elim (stored packet total (got (pos_part to_read) a)) [
      | none ↦ overrun
      | some packet' ↦
          let again = read_loop rest (total +ℤ n) (to_read -ℤ n) packet' in
          if ltb_ℤ (total +ℤ n) (pos p_size) then again else whole packet' (total +ℤ n) rest
    ]

-- A call of `recieve_data`: it returns, waits in `read`, or has overwritten other memory.
pub data Received : Type 0 where
  received : Controller → List Arrival → Received
  blocked : Received
  corrupted : Received

finish_receive : Controller → Reading → Received
finish_receive s (whole packet total rest) =
    let s' = notify s 1 packet in
    received (record s' { buffer = (write s'.buffer packet (pos_part total)).1 }) rest
finish_receive s waiting = blocked
finish_receive s overrun = corrupted

unfoldable pub receive_data : Controller → List Arrival → Received
unfolding finish_receive
receive_data s arrivals =
    let reading = read_loop arrivals (pos 0) (pos p_size) blank in
    if ltb p_size (sub_size s.buffer.capacity s.buffer.size)
    then finish_receive s reading
    else received s arrivals

-- a datagram given to `sendto` on port `CLIENT_PORT`, and the `usleep` before it
pub record Sent : Type 0 where
  pub address : Bytes
  pub content : Bytes
  pub delay : ℕ

-- `gethostbyname` and `sendto` as the program meets them.
pub record Network : Type 0 where
  pub resolve : Bytes → Option Bytes
  pub deliver : Bytes → Bytes → Bool

pub record Transmitted : Type 0 where
  pub status : ℤ
  pub sent : List Sent
  pub after : Controller

-- the part of `transmit_data` below the loss check, for the packet `raw` taken from the buffer
forward : Network → Controller → Bytes → Transmitted
forward net s raw = elim (net.resolve (dest_text raw)) [
  | none ↦ record { status = negsuc 0; sent = []; after = s }
  | some address ↦
      if net.deliver address raw
      then record {
        status = pos 0;
        sent = record { address = address; content = raw; delay = s.noise.packet_delay } ∷ [];
        after = notify s 0 raw;
      }
      else record { status = negsuc 1; sent = []; after = s }
]

unfoldable pub transmit_data : Network → ℕ → Controller → Transmitted
unfolding forward
transmit_data net random s =
    let (_, raw, buffer') = read s.buffer blank p_size in
    let s' = record s { buffer = buffer' } in
    let pkt = from_bytes raw in
    if leb p_size s.buffer.size
    then if packet_drop_check s.noise random then forward net s' raw else record {
      status = pos 2;
      sent = [];
      after = record s' {
        console =
            s'.console ++ lost (get_readable_type pkt.ptype) pkt.sequence_number pkt.ack_value ∷ [];
      };
    }
    else record { status = pos 0; sent = []; after = s }

-- What one turn of `execute` meets: a line typed, the socket writable, the datagrams waiting.
pub record Input : Type 0 where
  pub line : Option Bytes
  pub garbage : ℤ
  pub writable : Bool
  pub random : ℕ
  pub arrivals : List Arrival

-- How the turn ends: `stuck` waits in `read`, `corrupt` has overwritten other memory.
pub data Round : Type 0 where
  next : Controller → List Sent → List Arrival → Round
  exit : ℕ → Round
  abort stuck corrupt : Round

end_of_turn : List Sent → Received → Round
end_of_turn sent (received s rest) = next s sent rest
end_of_turn sent blocked = stuck
end_of_turn sent corrupted = corrupt

-- `FD_ISSET(ctrl_socket, &rcvset_t)`: a datagram or an error is waiting.
receive_turn : List Sent → Controller → List Arrival → Round
unfolding end_of_turn
receive_turn sent s [] = next s sent []
receive_turn sent s (a ∷ rest) = end_of_turn sent (receive_data s (a ∷ rest))

transmit_turn : Network → Input → Controller → Transmitted
transmit_turn net i s =
    if i.writable
    then transmit_data net i.random s
    else record { status = pos 0; sent = []; after = s }

socket_turn : Network → Input → Controller → Round
unfolding receive_turn transmit_turn
socket_turn net i s = let t = transmit_turn net i s in receive_turn t.sent t.after i.arrivals

command_turn : Network → Input → Controller → Outcome → Round
unfolding socket_turn
command_turn net i s (running noise out) =
    socket_turn net i (record s { noise = noise; console = s.console ++ map said out })
command_turn net i s (exited n) = exit n
command_turn net i s aborted = abort

-- one turn of the loop of `execute`
unfoldable pub round : (Bytes → Bool) → Network → Input → Controller → Round
unfolding command_turn socket_turn
round can_open net i s = elim i.line [
  | none ↦ socket_turn net i s
  | some line ↦ command_turn net i s (check_command can_open i.garbage s.noise line)
]
