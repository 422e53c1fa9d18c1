-- ===== src/Chat/Server.antt =====
-- LinuxAssign3/server/src/ServerSystemRouter.cpp: the thread that takes clients and commands and tells
-- the channels. `malloc n` and `stack n` are memory with what happens to be in it; printing is left out.
mod Tests
pub mod Console
pub mod First
pub mod Names
pub mod Routing
pub mod Commands
use ridingthecode.Common.{
  ℕ, zero, suc, ◌+◌, ◌-◌, List, [], ◌∷◌, ◌++◌, Bool, true, false, Option, none, some, get_or, set,
  replicate, copy_to, drop, ltb, ◌==◌, if◌then◌else◌,
}
use ridingthecode.Common.Int.{ℤ, pos, negsuc, eq_ℤ, int_of, bytes_word}
use ridingthecode.Common.Text.{Bytes, same_bytes, c_string}
use ridingthecode.Common.Fault.{Fault, ok, fault, ◌>>=◌}
use ridingthecode.Packet.{int_bytes}
use ridingthecode.Chat.Stream.{Stream, read_pipe}
use ridingthecode.Chat.Packets.{
  max_channels, max_channel_name, max_user_name, type_size, channel_info_pkt, client_join_pkt,
  read_packet, write_packet,
}
use ridingthecode.Chat.Channel.{client_add, channel_close_code, row_text, rejection, piped, max_of}

abbrev pub channel_create : ℤ
channel_create = pos 4

abbrev pub user_display : ℤ
user_display = pos 11

abbrev pub server_exit : ℤ
server_exit = pos 3

-- The static variables, those of `main`, and nothing of the threads. `listen_fds` has the socket, the
-- input pipe and the read ends of the channels' pipes.
pub record Router : Type 0 where
  pub open_channels : ℕ
  pub channel_name_list : List Bytes
  pub listen_fds : List ℤ
  pub max_fd : ℤ
  pub type : ℤ

-- the variables when the loop of `main` starts
unfoldable pub new_router : ℤ → ℤ → Router
new_router read_end listen_sd = record {
  open_channels = 0;
  channel_name_list = replicate max_channels (replicate max_channel_name 0);
  listen_fds = listen_sd ∷ read_end ∷ [];
  max_fd = max_of read_end listen_sd;
  type = negsuc 0;
}

-- what the router does: a `write` on a channel's pipe or a socket, or a thread for a channel
pub data Output : Type 0 where
  to_channel : ℕ → Bytes → Output
  to_client : ℤ → List Bytes → Output
  started : ℕ → Bytes → ℤ → Output

-- the first channel, of the `k` from number `i` on, whose row is this name
unfoldable pub find_channel : List Bytes → Bytes → ℕ → ℕ → Option ℕ
find_channel names name zero i = none
find_channel names name (suc k) i =
    let rest = find_channel names name k (i + 1) in
    if same_bytes (row_text names i) name then some i else rest

-- the channel of this name among those opened
abbrev pub channel_of : Router → Bytes → Option ℕ
channel_of r name = find_channel r.channel_name_list name r.open_channels 0

-- the channel's name in a `C_JOIN_PKT`, as a C string that runs on into the descriptor
abbrev pub join_channel_name : Bytes → Bytes
join_channel_name info = c_string (drop max_user_name info)

abbrev pub with_socket : Bytes → ℤ → Bytes
with_socket info sd = copy_to info (max_user_name + max_channel_name) (int_bytes sd)

abbrev pub reject_client : Bytes → ℤ → List Output
reject_client stack client_sd =
    to_client client_sd (write_packet channel_info_pkt (rejection stack)) ∷ []

-- `add_client` once the packet is read, with the channel that was found
unfoldable pub pass_found : Bytes → ℤ → Bytes → Option ℕ → List Output
pass_found stack client_sd info none = reject_client stack client_sd
pass_found stack client_sd info (some i) =
    to_channel i (int_bytes client_add) ∷ to_channel i info ∷ []

unfoldable pub pass_on : Bytes → ℤ → Bytes → Router → List Output
unfolding pass_found
pass_on stack client_sd info r =
    let info' = with_socket info client_sd in
    pass_found stack client_sd info' (channel_of r (join_channel_name info'))

joined : Bytes → ℤ → Option Bytes → Router → Fault (List Output)
joined stack client_sd none r = fault
joined stack client_sd (some info) r = ok (pass_on stack client_sd info r)

unfoldable pub add_client : (ℕ → Bytes) → Bytes → ℤ → Stream → Router → Fault (List Output)
unfolding joined
add_client malloc stack client_sd s r =
    let (packet, type, s') = read_packet malloc (negsuc 0) s in
    if eq_ℤ type client_join_pkt then joined stack client_sd packet r else ok []

-- the variables after `add_channel`, where `pipe` gives `read_end`
abbrev pub opened : Bytes → ℤ → Router → Router
opened name read_end r = record r {
  open_channels = r.open_channels + 1;
  channel_name_list = set r.channel_name_list r.open_channels name;
  listen_fds = read_end ∷ r.listen_fds;
  max_fd = max_of r.max_fd read_end;
}

-- `add_channel` once the name is read; past its rows it writes outside of them.
unfoldable pub open_channel : Bytes → ℤ → Router → Fault (Router × List Output)
open_channel name read_end r =
    if ltb r.open_channels max_channels
    then ok (opened name read_end r, started r.open_channels name read_end ∷ [])
    else fault

unfoldable pub add_channel : Bytes → ℤ → Stream → Router → Fault (Router × List Output × Stream)
add_channel temp read_end pipe r = do
  let (part, pipe') = read_pipe max_channel_name pipe
  (r', outputs) ← open_channel (piped temp part) read_end r
  ok (r', outputs, pipe')

-- `channel_close` once the name is read
unfoldable pub close_found : Option ℕ → Router → Router × List Output
close_found none r = (r, [])
close_found (some i) r = (
  record r { channel_name_list = set r.channel_name_list i (replicate max_channel_name 0) },
  to_channel i (int_bytes channel_close_code) ∷ [],
)

unfoldable pub close_named : Bytes → Router → Router × List Output
unfolding close_found
close_named name r = close_found (channel_of r name) r

unfoldable pub channel_close : Bytes → Stream → Router → Router × List Output × Stream
channel_close channel_name pipe r =
    let (part, pipe') = read_pipe max_channel_name pipe in
    let (r', outputs) = close_named (c_string (piped channel_name part)) r in (r', outputs, pipe')

-- the loop of `close_server`, over the `k` channels from number `i` on
unfoldable pub close_channels : ℕ → ℕ → List Output
close_channels zero i = []
close_channels (suc k) i = to_channel i (int_bytes channel_close_code) ∷ close_channels k (i + 1)

unfoldable pub close_server : Router → List Output
close_server r = close_channels r.open_channels 0

-- `display_users` once the name is read
unfoldable pub display_named : Bytes → Router → List Output
display_named name r = elim (channel_of r name) [
  | none ↦ []
  | some i ↦ to_channel i (int_bytes user_display) ∷ []
]

unfoldable pub display_users : Bytes → Stream → Router → List Output × Stream
display_users channel_name pipe r =
    let (part, pipe') = read_pipe max_channel_name pipe in
    (display_named (c_string (piped channel_name part)) r, pipe')

-- A turn of the loop of `main` goes on, or the server is left, or its memory is broken.
pub data Turn : Type 0 where
  going : Router → Stream → List Output → Turn
  left : List Output → Turn
  broken : Turn

created : List Output → Fault (Router × List Output × Stream) → Turn
created before fault = broken
created before (ok (r, outputs, pipe)) = going r pipe (before ++ outputs)

named : List Output → Router × List Output × Stream → Turn
named before (r, outputs, pipe) = going r pipe (before ++ outputs)

shown : List Output → Router → List Output × Stream → Turn
shown before r (outputs, pipe) = going r pipe (before ++ outputs)

module _ (malloc stack : ℕ → Bytes) (read_end : ℤ) where
  -- what the code read from the input pipe asks for
  command : List Output → Stream → Router → Turn
  unfolding created named shown
  command before pipe r =
      if eq_ℤ r.type channel_create
      then created before (add_channel (stack max_channel_name) read_end pipe r)
      else if eq_ℤ r.type channel_close_code
      then named before (channel_close (stack max_channel_name) pipe r)
      else if eq_ℤ r.type user_display
      then shown before r (display_users (stack max_channel_name) pipe r)
      else if eq_ℤ r.type server_exit
      then left (before ++ close_server r)
      else going r pipe before

  typed : List Output → Option Bytes × Stream → Router → Turn
  unfolding command
  typed before (none, pipe) r = going r pipe before
  typed before (some part, pipe) r =
      command before pipe
        (record r { type = int_of (bytes_word (copy_to (int_bytes r.type) 0 part)) })

  -- the part of a turn behind `add_client`
  input_turn : Bool → Stream → Router → Fault (List Output) → Turn
  unfolding typed
  input_turn pipe_ready pipe r fault = broken
  input_turn pipe_ready pipe r (ok before) =
      if pipe_ready then typed before (read_pipe type_size pipe) r else going r pipe before

  -- One turn of the loop of `main`, with the client that `accept` gives, if one does, and its stream;
  -- `read_end` is of the pipe of a channel that is made in the turn.
  unfoldable pub main_turn : Option (ℤ × Stream) → Bool → Stream → Router → Turn
  unfolding input_turn
  main_turn client pipe_ready pipe r = elim client [
    | none ↦ input_turn pipe_ready pipe r (ok [])
    | some (client_sd, s) ↦
        input_turn pipe_ready pipe r (add_client malloc (stack 2028) client_sd s r)
  ]
