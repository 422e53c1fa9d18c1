-- ===== src/Chat/Packets.antt =====
-- LinuxAssign3/server/src/packets.h and utils.cpp, which the client has copies of: the packets, each as
-- its memory (the structures have no padding), and how they are written to a stream and read back.
-- `malloc n` is the memory that such a call gives, with what happens to be in it.
pub mod Fields
pub mod RoundTrip
pub mod Desync
use ridingthecode.Common.{
  ℕ, zero, suc, ◌+◌, ◌-◌, List, [], ◌∷◌, ◌++◌, Option, none, some, length, take, drop, get_or,
  replicate, copy_to, ◌==◌, ◌||◌, if◌then◌else◌, ◌*◌,
}
use ridingthecode.Common.Int.{ℤ, pos, negsuc, eq_ℤ, int_of, bytes_word}
use ridingthecode.Common.Text.{Bytes}
use ridingthecode.Packet.{int_bytes}
use ridingthecode.Chat.Stream.{Stream, read, rcv_variable}

abbrev pub max_clients : ℕ
max_clients = 100

abbrev pub max_string : ℕ
max_string = 1024

abbrev pub max_channels : ℕ
max_channels = 50

abbrev pub max_channel_name : ℕ
max_channel_name = 20

abbrev pub max_user_name : ℕ
max_user_name = 20

abbrev pub type_size : ℕ
type_size = 4

abbrev pub server_kick_pkt : ℤ
server_kick_pkt = pos 0

abbrev pub server_msg_pkt : ℤ
server_msg_pkt = pos 1

abbrev pub channel_info_pkt : ℤ
channel_info_pkt = pos 2

abbrev pub client_msg_pkt : ℤ
client_msg_pkt = pos 4

abbrev pub client_quit_pkt : ℤ
client_quit_pkt = pos 5

abbrev pub client_join_pkt : ℤ
client_join_pkt = pos 6

abbrev pub connection_rejected : ℤ
connection_rejected = negsuc 0

abbrev pub connection_accepted : ℤ
connection_accepted = pos 99

abbrev pub packet_sizes : List ℕ
packet_sizes =
    (max_user_name + max_channel_name + max_string)
    ∷ (max_user_name + max_channel_name + max_string)
    ∷ (type_size * 2 + max_channel_name + max_user_name * max_clients)
    ∷ 0
    ∷ max_string
    ∷ type_size
    ∷ (max_user_name + max_channel_name + type_size)
    ∷ []

-- The sizes of the fields of `S_MSG_PKT` and `S_KICK_PKT`, in order, and of the other packets.
abbrev pub smsg_fields : List ℕ
smsg_fields = max_user_name ∷ max_string ∷ max_channel_name ∷ []

abbrev pub cinfo_fields : List ℕ
cinfo_fields = type_size ∷ type_size ∷ max_channel_name ∷ replicate max_clients max_user_name

abbrev pub cmsg_fields : List ℕ
cmsg_fields = max_string ∷ []

abbrev pub cquit_fields : List ℕ
cquit_fields = type_size ∷ []

abbrev pub cjoin_fields : List ℕ
cjoin_fields = max_user_name ∷ max_channel_name ∷ type_size ∷ []

-- a `write` of each field of a packet, one after the other
unfoldable pub write_fields : List ℕ → Bytes → List Bytes
write_fields [] packet = []
write_fields (n ∷ ns) packet = take n packet ∷ write_fields ns (drop n packet)

serialize_cjoin : Bytes → List Bytes
serialize_cjoin = write_fields cjoin_fields

serialize_smsg_skick : Bytes → List Bytes
serialize_smsg_skick = write_fields smsg_fields

serialize_cinfo : Bytes → List Bytes
serialize_cinfo = write_fields cinfo_fields

-- the `switch` of `write_packet`
unfoldable pub write_body : ℤ → Bytes → List Bytes
unfolding serialize_cjoin serialize_smsg_skick serialize_cinfo
write_body type packet =
    if eq_ℤ type server_msg_pkt || eq_ℤ type server_kick_pkt
    then serialize_smsg_skick packet
    else if eq_ℤ type channel_info_pkt
    then serialize_cinfo packet
    else if eq_ℤ type client_msg_pkt
    then take (get_or packet_sizes 4 0) packet ∷ []
    else if eq_ℤ type client_quit_pkt
    then take (get_or packet_sizes 5 0) packet ∷ []
    else if eq_ℤ type client_join_pkt
    then serialize_cjoin packet
    else []

-- The buffers that are given to `write`, in order.
unfoldable pub write_packet : ℤ → Bytes → List Bytes
unfolding write_body
write_packet type packet = int_bytes type ∷ write_body type packet

-- an `rcv_variable` into each field of a packet, one after the other
unfoldable pub rcv_fields : List ℕ → Bytes → Stream → Bytes × Stream
rcv_fields [] packet s = (packet, s)
rcv_fields (n ∷ ns) packet s =
    let (field, s') = rcv_variable (take n packet) n s in
    let (fields, s'') = rcv_fields ns (drop n packet) s' in (field ++ fields, s'')

-- `while ((numread = read(sockfd, type, bytes_to_read)) > 0)`: each round stores at the start of `type`.
unfoldable pub type_loop : ℕ → ℕ → Bytes → Stream → Bytes × Stream
type_loop zero to_read type s = (type, s)
type_loop (suc fuel) to_read type s =
    let (part, s') = read to_read s in
    let more = type_loop fuel (to_read - length part) (copy_to type 0 part) s' in
    if length part == 0 then (type, s') else more

-- what is returned, a packet or `NULL`, and the stream after it
abbrev pub returning : Bytes × Stream → Option Bytes × Stream
returning r = (some r.0, r.1)

module _ (malloc : ℕ → Bytes) where
  recieve_smsg_skick : Stream → Bytes × Stream
  recieve_smsg_skick = rcv_fields smsg_fields (malloc (get_or packet_sizes 1 0))

  recieve_cinfo : Stream → Bytes × Stream
  recieve_cinfo = rcv_fields cinfo_fields (malloc (get_or packet_sizes 2 0))

  unfoldable pub recieve_cmsg : Stream → Bytes × Stream
  recieve_cmsg = rcv_fields cmsg_fields (malloc (get_or packet_sizes 4 0))

  recieve_cquit : Stream → Bytes × Stream
  recieve_cquit = rcv_fields cquit_fields (malloc (get_or packet_sizes 5 0))

  unfoldable pub recieve_cjoin : Stream → Bytes × Stream
  recieve_cjoin = rcv_fields cjoin_fields (malloc (get_or packet_sizes 6 0))

  -- the `switch` of `read_packet`
  unfoldable pub recieve_body : ℤ → Stream → Option Bytes × Stream
  unfolding recieve_smsg_skick recieve_cinfo recieve_cmsg recieve_cquit recieve_cjoin
  recieve_body type s =
      if eq_ℤ type server_msg_pkt
      then returning (recieve_smsg_skick s)
      else if eq_ℤ type channel_info_pkt
      then returning (recieve_cinfo s)
      else if eq_ℤ type client_msg_pkt
      then returning (recieve_cmsg s)
      else if eq_ℤ type client_quit_pkt
      then returning (recieve_cquit s)
      else if eq_ℤ type client_join_pkt
      then returning (recieve_cjoin s)
      else (none, s)

  -- `*type` before; the packet, `*type` after, and the stream after it.
  unfoldable pub read_packet : ℤ → Stream → Option Bytes × ℤ × Stream
  unfolding recieve_body
  read_packet type s =
      let (raw, s') = type_loop (type_size + 1) type_size (int_bytes type) s in
      let type' = int_of (bytes_word raw) in
      let (packet, s'') = recieve_body type' s' in (packet, type', s'')
