-- ===== src/Chat/Channel.antt =====
-- LinuxAssign3/server/src/ChannelSystem.cpp: one channel of the server, with its rows of the static
-- arrays. `malloc n` and `stack n` are memory with what happens to be in it; printing is left out.
pub mod Broadcast
pub mod Quit
pub mod Rows
pub mod Members
pub mod Names
pub mod Joining
use ridingthecode.Common.{
  ℕ, zero, suc, ◌+◌, ◌-◌, List, [], ◌∷◌, ◌++◌, Bool, true, false, not, Option, none, some, length,
  take, drop, get_or, set, replicate, copy_to, ltb, leb, ◌==◌, if◌then◌else◌,
}
use ridingthecode.Common.Int.{ℤ, pos, negsuc, eq_ℤ, ltb_ℤ, int_of, bytes_word}
use ridingthecode.Common.Text.{Bytes, same_bytes, c_string}
use ridingthecode.Common.Fault.{Fault, ok, fault, ◌>>=◌}
use ridingthecode.Packet.{int_bytes}
use ridingthecode.Chat.Stream.{Stream, read, read_pipe}
use ridingthecode.Chat.Packets.{
  max_clients, max_string, max_channel_name, max_user_name, type_size, packet_sizes, server_msg_pkt,
  channel_info_pkt, client_msg_pkt, client_quit_pkt, connection_rejected, connection_accepted,
  read_packet, write_packet,
}

-- the codes that the router sends a channel on its pipe
abbrev pub client_add : ℤ
client_add = pos 1

abbrev pub channel_close_code : ℤ
channel_close_code = pos 5

-- `num_clients` is a variable that nothing sets; `type` is the one that all reads share.
pub record Channel : Type 0 where
  pub channel_name : Bytes
  pub client_names : List Bytes
  pub socket_list : List ℤ
  pub num_clients : ℕ
  pub current_clients : ℕ
  pub listen_fds : List ℤ
  pub max_fd : ℤ
  pub type : ℤ

-- what a channel does to its sockets: the buffers of a packet written, or a `close`
pub data Effect : Type 0 where
  sent : ℤ → List Bytes → Effect
  shut : ℤ → Effect

-- the start of `ChannelManager`
unfoldable pub new_channel : Bytes → ℤ → Channel
new_channel name read_end = record {
  channel_name = name;
  client_names = replicate max_clients (replicate max_user_name 0);
  socket_list = replicate max_clients (pos 0);
  num_clients = 0;
  current_clients = 0;
  listen_fds = read_end ∷ [];
  max_fd = read_end;
  type = negsuc 0;
}

abbrev pub rows : List Bytes → Bytes
rows [] = []
rows (r ∷ rs) = r ++ rows rs

-- Row `i` of an array of names as a C string: it runs on into the next row if it has no NUL.
abbrev pub row_text : List Bytes → ℕ → Bytes
row_text names i = c_string (rows (drop i names))

-- `FD_ISSET`, whose descriptor must not be negative
unfoldable pub is_set : (ℤ → Bool) → ℤ → Fault Bool
is_set active (pos n) = ok (active (pos n))
is_set active (negsuc n) = fault

-- `FD_CLR`
unfoldable pub fd_clr : ℤ → List ℤ → List ℤ
fd_clr fd [] = []
fd_clr fd (x ∷ xs) = let rest = fd_clr fd xs in if eq_ℤ x fd then rest else x ∷ rest

-- the loop of `process_incoming_message`
unfoldable pub broadcast : ℤ → Bytes → List ℤ → List Effect
broadcast sock packet [] = []
broadcast sock packet (s ∷ ss) =
    let rest = broadcast sock packet ss in
    if eq_ℤ s sock then rest else sent s (write_packet server_msg_pkt packet) ∷ rest

-- the packet that it sends
unfoldable pub broadcast_msg : Channel → Bytes → ℕ → Bytes
broadcast_msg ch client_msg c_num =
    get_or ch.client_names c_num [] ++ (take max_string client_msg ++ ch.channel_name)

unfoldable pub process_incoming_message : ℤ → Bytes → ℕ → Channel → List Effect
process_incoming_message sock client_msg c_num ch =
    broadcast sock (broadcast_msg ch client_msg c_num) (take ch.current_clients ch.socket_list)

unfoldable pub process_client_quit : ℕ → Channel → Channel × List Effect
process_client_quit c_num ch = (
  record ch {
    client_names = set ch.client_names c_num (replicate max_user_name 0);
    socket_list = set ch.socket_list c_num (negsuc 0);
  },
  shut (get_or ch.socket_list c_num (negsuc 0)) ∷ [],
)

-- whether a row in use, of the `k` from row `i` on, is this name
unfoldable pub name_taken : List Bytes → Bytes → ℕ → ℕ → Bool
name_taken names name zero i = false
name_taken names name (suc k) i =
    let rest = name_taken names name k (i + 1) in
    if same_bytes (row_text names i) name then true else rest

-- the fields of a `C_JOIN_PKT` in memory
abbrev pub join_name : Bytes → Bytes
join_name info = take max_user_name info

abbrev pub join_socket : Bytes → ℤ
join_socket info = int_of (bytes_word (drop 40 info))

-- `s_info_pkt` with its code set, and with all that an accepted client is told
abbrev pub rejection : Bytes → Bytes
rejection stack = copy_to stack 0 (int_bytes connection_rejected)

abbrev pub acceptance : Bytes → Channel → ℕ → Bytes
acceptance stack ch n =
    int_bytes connection_accepted
    ++ (int_bytes (pos n)
        ++ (ch.channel_name ++ (get_or ch.client_names 0 [] ++ drop (28 + max_user_name) stack)))

abbrev pub max_of : ℤ → ℤ → ℤ
max_of a b = if ltb_ℤ b a then a else b

-- A row of a channel that is set: an index outside its rows in the static arrays is undefined behaviour. There
-- the program writes into the rows of another channel.
unfoldable pub store {ℓ} : {A : Type ℓ} → List A → ℕ → A → Fault (List A)
store xs i v = if ltb i (length xs) then ok (set xs i v) else fault

-- the channel with one more client, in these rows
abbrev pub seated : Bytes → List ℤ → List Bytes → Channel → Channel
seated info sockets names ch = record ch {
  socket_list = sockets;
  client_names = names;
  max_fd = max_of ch.max_fd (join_socket info);
  listen_fds = join_socket info ∷ ch.listen_fds;
  current_clients = ch.current_clients + 1;
}

-- `process_add_client` below the check of the name
unfoldable pub admit : Bytes → Bytes → Channel → Fault (Channel × List Effect)
admit stack info ch = do
  sockets ← store ch.socket_list ch.current_clients (join_socket info)
  names ← store ch.client_names ch.current_clients (join_name info)
  let ch' = seated info sockets names ch
  ok (
    ch',
    sent (join_socket info)
          (write_packet channel_info_pkt (acceptance stack ch' ch.current_clients))
        ∷ [],
  )

-- `process_add_client` once the packet is read
unfoldable pub join_client : Bytes → Bytes → Channel → Fault (Channel × List Effect)
join_client stack info ch =
    if name_taken ch.client_names (c_string info) ch.current_clients 0
    then ok (ch, sent (join_socket info) (write_packet server_msg_pkt (rejection stack)) ∷ [])
    else admit stack info ch

-- the piece of memory that a `read_pipe` of `n` leaves in `memory`
abbrev pub piped : Bytes → Option Bytes → Bytes
piped memory none = memory
piped memory (some part) = copy_to memory 0 part

unfoldable pub process_add_client :
    (ℕ → Bytes) → Stream → Channel → Fault (Channel × List Effect × Stream)
process_add_client stack pipe ch = do
  let (part, pipe') = read_pipe (get_or packet_sizes 6 0) pipe
  (ch', effects) ← join_client (stack 2028) (piped (stack 44) part) ch
  ok (ch', effects, pipe')

-- A turn of `ChannelManager` goes on, or the channel is closed, after these effects.
pub data Turn : Type 0 where
  going : Channel → Stream → (ℤ → Stream) → List Effect → Turn
  closed : List Effect → Turn
  broken : Turn

-- the streams when that of a descriptor is read on
unfoldable pub advance : (ℤ → Stream) → ℤ → Stream → ℤ → Stream
advance streams fd s x = if eq_ℤ x fd then s else streams x

-- what a packet of client `i` does
unfoldable pub client_packet : ℕ → ℤ → Option Bytes → ℤ → Channel → Channel × List Effect
client_packet i sock packet type ch =
    let ch' = record ch { type = type } in
    if eq_ℤ type client_quit_pkt
    then process_client_quit i (record ch' { listen_fds = fd_clr sock ch.listen_fds })
    else if eq_ℤ type client_msg_pkt
    then (ch', process_incoming_message sock (elim packet [ none ↦ [] | some m ↦ m ]) i ch')
    else (ch', [])

module _ (malloc stack : ℕ → Bytes) (active : ℤ → Bool) where
  -- the body of the loop over the clients, for client `i`
  unfoldable pub client_round :
      ℕ → Channel → (ℤ → Stream) → Fault (Channel × (ℤ → Stream) × List Effect)
  client_round i ch streams =
      let sock = get_or ch.socket_list i (negsuc 0) in
      do
        ready ← is_set active sock
        let (packet, type, s') = read_packet malloc ch.type (streams sock)
        let (ch', effects) = client_packet i sock packet type ch
        if ready then ok (ch', advance streams sock s', effects) else ok (ch, streams, [])

  -- the `k` clients from `i` on
  unfoldable pub client_rounds :
      ℕ → ℕ → Channel → (ℤ → Stream) → Fault (Channel × (ℤ → Stream) × List Effect)
  client_rounds zero i ch streams = ok (ch, streams, [])
  client_rounds (suc k) i ch streams = do
    (ch', streams', effects) ← client_round i ch streams
    (ch'', streams'', more) ← client_rounds k (i + 1) ch' streams'
    ok (ch'', streams'', effects ++ more)

  -- the part of a turn behind the pipe
  unfoldable pub clients_turn : List Effect → Channel → Stream → (ℤ → Stream) → Turn
  clients_turn effects ch pipe streams = elim (client_rounds ch.current_clients 0 ch streams) [
    | fault ↦ broken
    | ok (ch', streams', more) ↦ going ch' pipe streams' (effects ++ more)
  ]

  -- what follows an addition
  added_turn : (ℤ → Stream) → Fault (Channel × List Effect × Stream) → Turn
  added_turn streams fault = broken
  added_turn streams (ok (ch, effects, pipe)) = clients_turn effects ch pipe streams

  -- `CHANNEL_CLOSE` closes the first `num_clients` sockets.
  close_sockets : ℕ → List ℤ → List Effect
  close_sockets zero ss = []
  close_sockets (suc n) [] = []
  close_sockets (suc n) (s ∷ ss) = shut s ∷ close_sockets n ss

  -- what the code read from the pipe asks for; `USER_DISPLAY` only prints
  pipe_command : Channel → Stream → (ℤ → Stream) → Turn
  unfolding added_turn close_sockets
  pipe_command ch pipe streams =
      if eq_ℤ ch.type client_add
      then added_turn streams (process_add_client stack pipe ch)
      else if eq_ℤ ch.type channel_close_code
      then closed (close_sockets ch.num_clients ch.socket_list)
      else clients_turn [] ch pipe streams

  pipe_turn : Channel → Option Bytes × Stream → (ℤ → Stream) → Turn
  unfolding pipe_command
  pipe_turn ch (none, pipe) streams = clients_turn [] ch pipe streams
  pipe_turn ch (some part, pipe) streams =
      pipe_command (record ch { type = int_of (bytes_word (copy_to (int_bytes ch.type) 0 part)) })
        pipe streams

  -- one turn of the loop of `ChannelManager`
  unfoldable pub channel_turn : Bool → Channel → Stream → (ℤ → Stream) → Turn
  unfolding pipe_turn
  channel_turn pipe_ready ch pipe streams =
      if pipe_ready
      then pipe_turn ch (read_pipe type_size pipe) streams
      else clients_turn [] ch pipe streams
