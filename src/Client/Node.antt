-- ===== src/Client/Node.antt =====
-- 7005_NVirt/Client/src/CommandController.cpp and Controller.cpp: the client's commands and its loop.
-- `clock()`, arriving datagrams, the name service, `sendto` and the interfaces are arguments.
-- Following `transfers.front()` of an empty list is a fault.
pub mod Acks
pub mod Delivery
pub mod Exchange
pub mod Completion
pub mod Commands
use ridingthecode.Common.{
  ℕ, ◌+◌, ◌-◌, ◌*◌, ◌/◌, ◌^◌, ◌%◌, List, [], ◌∷◌, ◌++◌, Bool, true, false, not, ◌&&◌, Option, none,
  some, length, take, replicate, copy_to, leb, ltb, ◌==◌, if◌then◌else◌, drop,
}
use ridingthecode.Common.Int.{ℤ, pos, negsuc, ◌+ℤ◌, ◌-ℤ◌, sub_ℕ, leb_ℤ, eq_ℤ, pos_part}
use ridingthecode.Common.Text.{Bytes, codes, same_bytes, before, substr, c_string}
use ridingthecode.Common.Decimal.{extract_int}
use ridingthecode.Common.Fault.{Fault, ok, fault, ◌>>=◌}
use ridingthecode.Packet.{PacketHdr, p_size, data_load, ack, payload, eot, to_bytes, from_bytes}
use ridingthecode.Client.Transfer.{
  TransferController, Interface, grab_ip, ip_field, new_transfer, NextPacket, ready, finished,
  not_yet, read_next_packet, verify_ack, go_back,
}

-- `CommandController` and `Controller` in one; what goes to the terminal and the log is left out.
pub record Node : Type 0 where
  pub transfers : List TransferController
  pub server_ip : Bytes
  pub num_packets : ℤ
  pub window_size : ℤ
  pub timer : ℤ
  pub timer_enabled : Bool

-- `timer` and `timer_enabled` are not initialised.
unfoldable pub new_node : ℤ → Bool → Node
new_node timer timer_enabled = record {
  transfers = [];
  server_ip = codes "localhost";
  num_packets = pos 30;
  window_size = pos 10;
  timer = timer;
  timer_enabled = timer_enabled;
}

-- A command goes on, ends the program, throws, or runs into undefined behaviour.
pub data Outcome : Type 0 where
  running : Node → Outcome
  exited : ℕ → Outcome
  aborted : Outcome
  undefined : Outcome

abbrev with_rest : Option Bytes → (Bytes → Outcome) → Outcome
with_rest none f = aborted
with_rest (some rest) f = f rest

abbrev or_keep {ℓ} : {A : Type ℓ} → Option A → A → A
or_keep none a = a
or_keep (some b) a = b

add_transfer : Node → Fault TransferController → Outcome
add_transfer s (ok t) = running (record s { transfers = s.transfers ++ t ∷ [] })
add_transfer s fault = undefined

-- `host` is what `grab_ip` returns at that moment.
unfoldable pub check_command : Bytes → Node → Bytes → Outcome
unfolding add_transfer
check_command host s line =
    let command = before b' ' line in
    if same_bytes command (codes "/quit")
    then exited 1
    else if same_bytes command (codes "/setRouterIP")
    then with_rest (substr 13 line) (λ ip. running (record s { server_ip = ip }))
    else if same_bytes command (codes "/setWindow")
    then with_rest (substr 11 line)
        (λ n. running (record s { window_size = or_keep (extract_int n) s.window_size }))
    else if same_bytes command (codes "/setNumPackets")
    then with_rest (substr 15 line)
        (λ n. running (record s { num_packets = or_keep (extract_int n) s.num_packets }))
    else if same_bytes command (codes "/send")
    then with_rest (substr 6 line)
        (λ destip. add_transfer s (new_transfer host destip s.num_packets s.window_size))
    else running s

-- `gethostbyname` and `sendto` as the program meets them.
pub record Network : Type 0 where
  pub resolve : Bytes → Option Bytes
  pub deliver : Bytes → Bytes → Bool

-- a datagram sent to `SERVER_PORT`
pub record Sent : Type 0 where
  pub address : Bytes
  pub content : Bytes

abbrev pub front : Node → Fault TransferController
front s = elim s.transfers [ [] ↦ fault | t ∷ ts ↦ ok t ]

-- `*transfers.front() = t`
abbrev pub set_front : Node → TransferController → Node
set_front s t = record s { transfers = elim s.transfers [ [] ↦ [] | _ ∷ ts ↦ t ∷ ts ] }

abbrev pub pop_front : Node → Node
pop_front s = record s { transfers = elim s.transfers [ [] ↦ [] | _ ∷ ts ↦ ts ] }

-- `a / n` for an `int` and a positive constant, rounding towards 0
abbrev pub quot : ℤ → ℕ → ℤ
quot (pos a) n = pos (a / n)
quot (negsuc a) n = sub_ℕ 0 ((a + 1) / n)

-- The status, and what is sent. The client's own state stays as it is.
unfoldable pub write_udp_socket : Network → Node → Bytes → Fault (ℤ × List Sent)
write_udp_socket net s raw = do
  t ← front s
  let complete = eq_ℤ (t.current_ack +ℤ pos 1) (quot t.transfer_size p_size)
  if not complete && eq_ℤ (from_bytes raw).ptype eot
      then ok (pos 1, [])
      else elim (net.resolve s.server_ip) [
        | none ↦ ok (negsuc 1, [])
        | some address ↦
            if net.deliver address raw
            then ok (pos 0, record { address = address; content = raw } ∷ [])
            else ok (negsuc 0, [])
      ]

-- The ack for packet number `seq`, to the address in `src_ip`.
unfoldable pub ack_packet : ℤ → Bytes → Fault PacketHdr
ack_packet seq src_ip = do
  dest ← ip_field src_ip
  ok (record {
    ptype = ack;
    ack_value = seq -ℤ pos 1;
    window_size = pos 0;
    sequence_number = seq;
    dest_ip = dest;
    src_ip = replicate 20 0;
    load = replicate data_load b'A';
  })

unfoldable pub send_ack : Network → Node → ℤ → Bytes → Fault (ℤ × List Sent)
send_ack net s seq src_ip = do
  packet ← ack_packet seq src_ip
  write_udp_socket net s (to_bytes packet)

-- The new state, and what is sent. `src_ip` is read as a C string, past its field if it has no NUL.
unfoldable pub check_packet : Network → Node → Bytes → Fault (Node × List Sent)
check_packet net s raw =
    let packet = from_bytes raw in
    if eq_ℤ packet.ptype ack
    then (do
      t ← front s
      let (verdict, t') = verify_ack t packet
      if verdict == 0
          then ok (set_front s (go_back t'), [])
          else ok (record (set_front s t') { timer_enabled = false }, []))
    else if eq_ℤ packet.ptype eot
    then ok (record s { timer_enabled = false }, [])
    else (do
      (_, sent) ← send_ack net s packet.sequence_number (c_string (drop 36 raw))
      ok (s, sent))

-- what follows `write_udp_socket` in `transmit_data`, for a packet and its status
pub after_write : ℤ → Node → Bytes → ℤ × List Sent → ℤ × Node × List Sent
after_write now s raw (status, sent) =
    let ptype = (from_bytes raw).ptype in
    if leb_ℤ status (negsuc 0)
    then (negsuc 1, pop_front s, sent)
    else let s' = if eq_ℤ ptype eot && eq_ℤ status (pos 0) then pop_front s else s in
      (
        pos 0,
        if eq_ℤ ptype payload then record s' { timer = now; timer_enabled = true } else s',
        sent,
      )

pub transmit_next : Network → ℤ → Node → NextPacket → Fault (ℤ × Node × List Sent)
unfolding after_write
transmit_next net now s (ready raw t) = do
  let s' = set_front s t
  written ← write_udp_socket net s' raw
  ok (after_write now s' raw written)
transmit_next net now s (finished raw) = do
  written ← write_udp_socket net s raw
  ok (after_write now s raw written)
transmit_next net now s not_yet = ok (negsuc 0, s, [])

-- The value returned, the new state, and what is sent; `now` is `clock()`.
unfoldable pub transmit_data : Network → ℤ → Node → Fault (ℤ × Node × List Sent)
unfolding transmit_next
transmit_data net now s = elim s.transfers [
  | [] ↦ ok (pos 0, s, [])
  | t ∷ ts ↦ read_next_packet t >>= transmit_next net now s
]

-- `CLOCKS_PER_SEC * 5`, of which only the product matters here
abbrev pub timeout : ℤ
timeout = pos 5000000

-- The end of a turn: the clock is compared with `==`.
unfoldable pub check_timer : ℤ → Node → Fault Node
check_timer now s =
    if eq_ℤ (now -ℤ s.timer) timeout && s.timer_enabled
    then (do t ← front s; ok (set_front (record s { timer_enabled = false }) (go_back t)))
    else ok s
