-- ===== src/Chat/Client.antt =====
-- LinuxAssign3/client/src/SystemRouter.cpp: the thread that stands between the terminal and the server.
-- `malloc n` and `stack n` are memory with what happens to be in it, `garbage` an `int` that is not set.
mod Tests
pub mod Console
pub mod Asking
pub mod Judging
pub mod Answers
use ridingthecode.Common.{
  ℕ, zero, suc, ◌+◌, ◌-◌, ◌*◌, List, [], ◌∷◌, ◌++◌, Bool, true, false, not, Option, none, some,
  length, take, drop, replicate, copy_to, ltb, leb, ◌==◌, ◌&&◌, if◌then◌else◌,
}
use ridingthecode.Common.Int.{ℤ, pos, negsuc, eq_ℤ, ltb_ℤ, int_of, bytes_word}
use ridingthecode.Common.Text.{Bytes, c_string, codes}
use ridingthecode.Common.Fault.{Fault, ok, fault, ◌>>=◌}
use ridingthecode.Packet.{int_bytes}
use ridingthecode.Chat.Stream.{Stream, read_pipe}
use ridingthecode.Chat.Packets.{
  max_clients, max_string, max_channel_name, max_user_name, type_size, server_msg_pkt,
  client_msg_pkt, client_quit_pkt, client_join_pkt, connection_rejected, read_packet, write_packet,
  recieve_cmsg, recieve_cjoin,
}
use ridingthecode.Chat.Channel.{is_set, fd_clr, max_of}

-- what the input thread asks for on the pipe
abbrev pub exit_code : ℤ
exit_code = pos 2

abbrev pub client_msg : ℤ
client_msg = pos 4

abbrev pub quit_channel_code : ℤ
quit_channel_code = pos 5

abbrev pub join_channel_code : ℤ
join_channel_code = pos 6

abbrev pub log_code : ℤ
log_code = pos 13

-- the code of a packet of a client that leaves
abbrev pub client_quit : ℤ
client_quit = pos 2

-- The static variables, those of `main`, and the rows of `channel_users` that were set at the last join.
pub record Client : Type 0 where
  pub in_channel : Bool
  pub client_socket : ℤ
  pub clientname : Bytes
  pub channel_name : Bytes
  pub logging : Bool
  pub channel_users : List Bytes
  pub listen_fds : List ℤ
  pub max_fd : ℤ

-- what the client does: the buffers of a packet written to a socket, a text on the terminal or in the
-- log, and the log opened or closed
pub data Output : Type 0 where
  sent : ℤ → List Bytes → Output
  shown : Bytes → Output
  logged : Bytes → Output
  log_opened : Output
  log_closed : Output

-- The checks of `main`: the name, cut from the memory at `argv[1]`, whose strings are `name` and `ip`.
unfoldable pub main_name : List Bytes → Bytes → Option Bytes
main_name (program ∷ name ∷ ip ∷ []) memory =
    if leb (length name) max_user_name && leb (length ip) 20
    then some (take max_user_name memory)
    else none
main_name args memory = none

-- the variables when the loop of `main` starts
unfoldable pub new_client : Bytes → ℤ → Client
new_client name read_end = record {
  in_channel = false;
  client_socket = pos 0;
  clientname = name;
  channel_name = replicate max_channel_name 0;
  logging = false;
  channel_users = [];
  listen_fds = read_end ∷ [];
  max_fd = read_end;
}

-- the fields of an `S_CHANNEL_INFO_PKT` in memory
abbrev pub info_code : Bytes → ℤ
info_code packet = int_of (bytes_word packet)

abbrev pub info_clients : Bytes → ℤ
info_clients packet = int_of (bytes_word (drop 4 packet))

-- `n` rows of a packet, of which the rows must be there
unfoldable pub user_rows : ℕ → Bytes → Fault (List Bytes)
user_rows zero packet = ok []
user_rows (suc n) packet = do
  rest ← user_rows n (drop max_user_name packet)
  if leb max_user_name (length packet) then ok (take max_user_name packet ∷ rest) else fault

-- The loop of `setup_channel_variables` sets no row for a negative number, and 100 at most are there.
unfoldable pub channel_rows : ℤ → Bytes → Fault (List Bytes)
channel_rows (negsuc n) packet = ok []
channel_rows (pos n) packet = if leb n max_clients then user_rows n packet else fault

unfoldable pub setup_channel_variables : Bytes → Client → Fault Client
setup_channel_variables c_info c = do
  users ← channel_rows (info_clients c_info) (drop 28 c_info)
  ok (record c { channel_name = take max_channel_name (drop 8 c_info); channel_users = users })

-- the end of `join_channel`
abbrev pub joined_on : ℤ → Client → Client
joined_on sd c = record c {
  max_fd = max_of c.max_fd sd;
  client_socket = sd;
  listen_fds = sd ∷ c.listen_fds;
  in_channel = true;
}

enter : ℤ → Fault Client → Fault Client
enter sd fault = fault
enter sd (ok c) = ok (joined_on sd c)

-- `join_channel` once the answer is read
unfoldable pub answered : ℤ → Option Bytes → Client → Fault Client
unfolding enter
answered sd none c = ok c
answered sd (some c_info) c =
    if eq_ℤ (info_code c_info) connection_rejected
    then ok c
    else enter sd (setup_channel_variables c_info c)

-- what was written to the server, and the rest of the pipe
asked : ℤ → Bytes → Stream → Fault Client → Fault (Client × List Output × Stream)
asked sd info pipe fault = fault
asked sd info pipe (ok c) = ok (c, sent sd (write_packet client_join_pkt info) ∷ [], pipe)

-- `join_channel`, where `connect_to_server` gives `sd`, with the stream of what the server answers: the
-- client, what it does, and the rest of the pipe. A socket that is 0 is taken for a failure.
unfoldable pub join_channel :
    (ℕ → Bytes) → ℤ → ℤ → Stream → Stream → Client → Fault (Client × List Output × Stream)
unfolding asked
join_channel malloc garbage sd server pipe c =
    let (info, pipe') = recieve_cjoin malloc pipe in
    let (packet, type, server') = read_packet malloc garbage server in
    if eq_ℤ sd (pos 0)
    then ok (c, [], pipe)
    else asked sd (copy_to info 0 c.clientname) pipe' (answered sd packet c)

unfoldable pub quit_channel : ℤ → Client → Client × List Output
quit_channel code c = (
  record c {
    in_channel = false;
    channel_name = replicate max_channel_name 0;
    listen_fds = fd_clr c.client_socket c.listen_fds;
  },
  sent c.client_socket (write_packet client_quit_pkt (int_bytes code)) ∷ [],
)

-- the text of a packet in the log, if there is one
abbrev pub log_of : Client → Bytes → List Output
log_of c text = if c.logging then logged text ∷ [] else []

-- A turn goes on, or the program is left, or its memory is broken.
pub data Turn : Type 0 where
  going : Client → Stream → List Output → Turn
  left : List Output → Turn
  broken : Turn

joined : Fault (Client × List Output × Stream) → Turn
joined fault = broken
joined (ok (c, outputs, pipe)) = going c pipe outputs

asked_to_leave : Stream → Client × List Output → Turn
asked_to_leave pipe (c, outputs) = going c pipe outputs

-- the message that is on the pipe
message : Client → Bytes × Stream → Turn
message c (c_msg, pipe) =
    going c pipe
      (log_of c (c_string c_msg) ++ (sent c.client_socket (write_packet client_msg_pkt c_msg) ∷ []))

module _ (malloc : ℕ → Bytes) (garbage sd : ℤ) (server : Stream) where
  -- what the code read from the pipe asks for
  command : ℤ → Stream → Client → Turn
  unfolding joined asked_to_leave message
  command type pipe c =
      if eq_ℤ type join_channel_code
      then if c.in_channel
        then going c pipe []
        else joined (join_channel malloc garbage sd server pipe c)
      else if eq_ℤ type log_code
      then going (record c { logging = not c.logging }) pipe
          ((if c.logging then log_closed else log_opened) ∷ [])
      else if eq_ℤ type quit_channel_code
      then asked_to_leave pipe (quit_channel client_quit c)
      else if eq_ℤ type client_msg
      then if c.in_channel then message c (recieve_cmsg malloc pipe) else going c pipe []
      else if eq_ℤ type exit_code
      then left ((quit_channel exit_code c).1 ++ (log_closed ∷ []))
      else going c pipe []

  typed : Option Bytes × Stream → Client → Turn
  unfolding command
  typed (none, pipe) c = going c pipe []
  typed (some part, pipe) c =
      command (int_of (bytes_word (copy_to (int_bytes (negsuc 0)) 0 part))) pipe c

  -- `check_input_pipes`, where a connection would be `sd` and its stream `server`
  unfoldable pub check_input_pipes : Bool → Stream → Client → Turn
  unfolding typed
  check_input_pipes ready pipe c =
      if ready then typed (read_pipe type_size pipe) c else going c pipe []

-- `display_incoming_message`: the two texts, of which each runs on until a NUL, into 1047 bytes
unfoldable pub display_incoming_message : Bytes → Client → Fault (List Output)
display_incoming_message packet c =
    let temp = c_string packet ++ (codes " : " ++ c_string (drop max_user_name packet)) in
    if ltb (length temp) (max_string + max_user_name + 3)
    then ok (shown temp ∷ log_of c temp)
    else fault

displayed : ℤ → Option Bytes → Client → Fault (List Output)
displayed type none c = ok []
displayed type (some packet) c =
    if eq_ℤ type server_msg_pkt then display_incoming_message packet c else ok []

socket_read : Option Bytes × ℤ × Stream → Client → Fault (List Output × Stream)
unfolding displayed
socket_read (packet, type, server) c = do outputs ← displayed type packet c; ok (outputs, server)

-- what it does, and the stream of the server after it
unfoldable pub check_output_sockets :
    (ℕ → Bytes) → ℤ → (ℤ → Bool) → Stream → Client → Fault (List Output × Stream)
unfolding socket_read
check_output_sockets malloc garbage active server c = do
  ready ← is_set active c.client_socket
  if ready then socket_read (read_packet malloc garbage server) c else ok ([], server)
