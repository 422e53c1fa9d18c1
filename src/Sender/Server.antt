-- ===== src/Sender/Server.antt =====
-- TCP_RUDP_Packet_Sender/TCP_UDP_Transfer_Assgn2/ServerMode.cpp: what the server does with what arrives,
-- one event FD_READ at a time. `malloc n` is memory with what happens to be in it.
pub mod Receiving
use ridingthecode.Common.{
  ℕ, zero, suc, ◌+◌, ◌-◌, List, [], ◌∷◌, ◌++◌, Bool, true, false, Option, none, some, length, take,
  drop, get_or, set, replicate, copy_to, ltb, leb, ◌==◌, ◌||◌, if◌then◌else◌,
}
use ridingthecode.Common.Int.{ℤ, pos, negsuc, eq_ℤ, ltb_ℤ, ◌-ℤ◌, mul_int}
use ridingthecode.Common.Text.{Bytes, c_string, codes}
use ridingthecode.Common.Fault.{Fault, ok, fault, ◌>>=◌}
use ridingthecode.Sender.Header.{Header, header_size, grab_header_info}

abbrev pub file_mode : ℤ
file_mode = pos 0

-- whether the server runs over TCP
pub data Protocol : Type 0 where
  tcp : Protocol
  udp : Protocol

-- `SocketInfo`, and the `buffer` that holds what has come
pub record SocketInformation : Type 0 where
  pub header : Header
  pub packets : ℤ
  pub header_received : Bool
  pub total_recv : ℕ
  pub buffer : Bytes

-- what `GlobalAlloc` gives, with the buffer of before
unfoldable pub new_information : Bytes → SocketInformation
new_information buffer = record {
  header = record { total_size = pos 0; packet_size = pos 0; packets = pos 0; mode = pos 0 };
  packets = pos 0;
  header_received = false;
  total_recv = 0;
  buffer = buffer;
}

-- what the server does: an acknowledgement sent, or a file saved
pub data Effect : Type 0 where
  acknowledged : Bytes → Effect
  saved : Bytes → Effect

abbrev pub ack_text : Bytes
ack_text = codes ";ACK;" ++ (0 ∷ [])

-- `process_header`, where a call that fails gives none: the header, none where it is refused, and what is
-- done. TCP looks at the first byte only, and UDP at none.
unfoldable pub process_header : Protocol → Option Bytes → Fault (Option Header × List Effect)
process_header tcp part =
    let memory =
      copy_to (replicate header_size 0) 0 (elim part [ none ↦ [] | some p ↦ take header_size p ]) in
    if get_or memory 0 0 == b';'
    then grab_header_info memory >>= (λ h. ok (some h, []))
    else ok (none, [])
process_header udp none = ok (none, [])
process_header udp (some part) =
    grab_header_info (copy_to (replicate header_size 0) 0 (take header_size part))
    >>= (λ h. ok (some h, acknowledged ack_text ∷ []))

-- the size that `malloc` and `memset` are given, a product of two `int`s; a negative one is too large for any
-- memory
unfoldable pub block_of : ℤ → Fault Bytes
block_of (pos n) = ok (replicate n 0)
block_of (negsuc n) = fault

started :
    Option Header × List Effect → SocketInformation → Fault (ℤ × SocketInformation × List Effect)
started (none, effects) s = ok (negsuc 0, s, effects)
started (some h, effects) s = do
  buffer ← block_of (mul_int h.packet_size h.packets)
  ok (
    pos 0,
    record {
      header = h;
      packets = h.packets;
      header_received = true;
      total_recv = 0;
      buffer = buffer;
    },
    effects,
  )

unfoldable pub grab_header :
    Protocol → Option Bytes → SocketInformation → Fault (ℤ × SocketInformation × List Effect)
unfolding started
grab_header protocol part s = do r ← process_header protocol part; started r s

-- `strcat_s(buffer + at, size, text)`: behind the C string at `at`, where both fit into `size` bytes with
-- a NUL, which must also be there.
unfoldable pub strcat_s : Bytes → ℕ → ℕ → Bytes → Fault Bytes
strcat_s buffer at size text =
    let old = c_string (drop at buffer) in
    if ltb (length old + length text) size
    then if leb (at + length old + length text + 1) (length buffer)
      then ok (copy_to buffer (at + length old) (text ++ 0 ∷ []))
      else fault
    else fault

-- In the mode of files the last byte of what came is overwritten by a NUL and the C string is kept.
unfoldable pub keep : Bytes → SocketInformation → Fault Bytes
keep part s =
    if length part == 0
    then fault
    else strcat_s s.buffer s.total_recv (length part) (c_string (take (length part - 1) part))

unfoldable pub transfer_completion : SocketInformation → ℤ × List Effect
transfer_completion s =
    if eq_ℤ s.header.mode file_mode
    then (pos 3, saved (take s.total_recv s.buffer) ∷ [])
    else (pos 2, [])

-- whether the transfer is over; UDP also ends it when the packets are counted down.
unfoldable pub is_over : Protocol → SocketInformation → Bool
is_over tcp s = eq_ℤ (pos s.total_recv) s.header.total_size
is_over udp s = eq_ℤ (pos s.total_recv) s.header.total_size || eq_ℤ s.packets (pos 0)

ended : Bool → SocketInformation → ℤ × SocketInformation × List Effect
ended true s = let (code, effects) = transfer_completion s in (code, s, effects)
ended false s = (negsuc 1, s, [])

counted :
    Protocol → ℕ → Fault Bytes → SocketInformation → Fault (ℤ × SocketInformation × List Effect)
unfolding ended
counted protocol n fault s = fault
counted protocol n (ok buffer) s =
    let s' = record s {
      buffer = buffer;
      packets = s.packets -ℤ pos 1;
      total_recv = s.total_recv + n;
    } in
    ok (ended (is_over protocol s') s')

abbrev pub sent_ack : Protocol → List Effect
sent_ack tcp = []
sent_ack udp = acknowledged ack_text ∷ []

-- `init_tcp_receive` and `init_udp_receive`, where a call that fails gives none, and else what fits into a
-- packet of what has come: the code returned, and what is done.
unfoldable pub init_receive :
    Protocol → Option Bytes → SocketInformation → Fault (ℤ × SocketInformation × List Effect)
unfolding counted
init_receive protocol none s = ok (pos 0, s, [])
init_receive protocol (some part) s =
    counted protocol (length part)
      (if eq_ℤ s.header.mode file_mode then keep part s else ok s.buffer) s
    >>= (λ r. ok (r.0, r.1, sent_ack protocol ++ r.2))

-- `read_tcp` and `read_udp`
unfoldable pub read_event :
    Protocol → Option Bytes → SocketInformation → Fault (ℤ × SocketInformation × List Effect)
read_event protocol part s =
    if s.header_received then init_receive protocol part s else grab_header protocol part s

-- the case FD_READ of `socket_event`: after a transfer a new header is waited for
unfoldable pub socket_event :
    Protocol → Option Bytes → SocketInformation → Fault (SocketInformation × List Effect)
socket_event protocol part s = do
  (code, s', effects) ← read_event protocol part s
  ok (if ltb_ℤ (pos 0) code then new_information s'.buffer else s', effects)

-- one event FD_READ after the other
unfoldable pub socket_events :
    Protocol → List (Option Bytes) → SocketInformation → Fault (SocketInformation × List Effect)
socket_events protocol [] s = ok (s, [])
socket_events protocol (part ∷ parts) s = do
  (s', effects) ← socket_event protocol part s
  (s'', more) ← socket_events protocol parts s'
  ok (s'', effects ++ more)
