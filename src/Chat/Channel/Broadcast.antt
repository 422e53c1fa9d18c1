-- ===== src/Chat/Channel/Broadcast.antt =====
-- Who gets a message, and what the receiver reads.
use ridingthecode.Common.{
  subst, ◌≢◌, ◌⊎◌, append-nil, ℕ, ◌≤◌, ◌≡◌, refl, ap, ◌∙◌, List, [], ◌∷◌, ◌++◌, some, inl, arith,
  length, take, get_or, if◌then◌else◌, length-append, length-take,
}
use ridingthecode.Common.Int.{ℤ, eq_ℤ, eq_ℤ_iff}
use ridingthecode.Common.Text.{Bytes}
use ridingthecode.Chat.Stream.{Stream}
use ridingthecode.Chat.Stream.Receive.{bytes_of, Flows}
use ridingthecode.Chat.Packets.{
  max_string, max_user_name, max_channel_name, type_size, server_msg_pkt, write_packet, read_packet,
}
use ridingthecode.Chat.Packets.RoundTrip.{write_packet-read_packet}
use ridingthecode.Chat.Channel.{
  Channel, Effect, sent, shut, broadcast, broadcast_msg, process_incoming_message,
}

-- all that is written to a descriptor, in order
abbrev pub written_to : ℤ → List Effect → List Bytes
written_to s [] = []
written_to s (sent x buffers ∷ es) =
    let rest = written_to s es in if eq_ℤ x s then buffers ++ rest else rest
written_to s (shut x ∷ es) = written_to s es

-- the packet once for each time that the descriptor occurs
abbrev pub copies : ℤ → List Bytes → List ℤ → List Bytes
copies s packet [] = []
copies s packet (x ∷ xs) =
    let rest = copies s packet xs in if eq_ℤ x s then packet ++ rest else rest

written_to-broadcast :
    (s sock : ℤ) (packet : Bytes) (ss : List ℤ)
    → written_to s (broadcast sock packet ss)
      ≡ (if eq_ℤ s sock then [] else copies s (write_packet server_msg_pkt packet) ss)
unfolding broadcast
written_to-broadcast s sock packet [] = ground arith
written_to-broadcast s sock packet (x ∷ ss) =
    ground
      (arith, written_to-broadcast s sock packet ss, eq_ℤ_iff x s, eq_ℤ_iff x sock, eq_ℤ_iff s sock)

-- A message is written once to each socket of the clients' rows, as often as the socket stands there,
-- but not to the sender's, and to no other descriptor.
pub written_to-process_incoming_message :
    (s sock : ℤ) (msg : Bytes) (c_num : ℕ) (ch : Channel)
    → written_to s (process_incoming_message sock msg c_num ch) ≡ (
        if eq_ℤ s sock
        then []
        else copies s
            (write_packet server_msg_pkt (broadcast_msg ch msg c_num))
            (take ch.current_clients ch.socket_list))
unfolding process_incoming_message
written_to-process_incoming_message s sock msg c_num ch =
    written_to-broadcast s sock (broadcast_msg ch msg c_num)
      (take ch.current_clients ch.socket_list)

broadcast_msg_lem :
    (ch : Channel) (msg : Bytes) (c_num : ℕ)
    → broadcast_msg ch msg c_num
      ≡ get_or ch.client_names c_num [] ++ (take max_string msg ++ ch.channel_name)
unfolding broadcast_msg
broadcast_msg_lem ch msg c_num = refl

length-broadcast_msg :
    (ch : Channel) (msg : Bytes) (c_num : ℕ)
    → length (get_or ch.client_names c_num []) ≡ max_user_name
    → length ch.channel_name ≡ max_channel_name
    → max_string ≤ length msg
    → length (broadcast_msg ch msg c_num) ≡ 1064
unfolding broadcast_msg
length-broadcast_msg ch msg c_num h k l = omega (
  arith,
  length-append (get_or ch.client_names c_num []) (take max_string msg ++ ch.channel_name),
  length-append (take max_string msg) ch.channel_name,
  length-take max_string msg,
)

-- The number does not stand in the list.
abbrev pub Absent : ℤ → List ℤ → Type 0
Absent s [] = Unit {0}
Absent s (x ∷ xs) = (x ≢ s) × Absent s xs

-- The number stands once in the list.
abbrev pub Once : ℤ → List ℤ → Type 0
Once s [] = ⊥
Once s (x ∷ xs) = ((x ≡ s) × Absent s xs) ⊎ ((x ≢ s) × Once s xs)

copies-Absent : (s : ℤ) (packet : List Bytes) (xs : List ℤ) → Absent s xs → copies s packet xs ≡ []
copies-Absent s packet [] h = refl
copies-Absent s packet (x ∷ xs) h = ground (arith, eq_ℤ_iff x s, copies-Absent s packet xs)

copies-Once : (s : ℤ) (packet : List Bytes) (xs : List ℤ) → Once s xs → copies s packet xs ≡ packet
copies-Once s packet [] h = absurd h
copies-Once s packet (x ∷ xs) h =
    ground
      (arith, eq_ℤ_iff x s, copies-Absent s packet xs, copies-Once s packet xs, append-nil packet)

-- A member `s` whose socket stands once in the rows, other than the sender's, reads from any stream
-- that carries what a message writes to it, cut as it may be once the type is whole, the sender's
-- name, the message and the channel's name, and what is behind is left on the stream. The two names
-- fill their fields, the message has 1024 bytes at least, and `malloc` gives what is asked for.
pub message_delivered :
    (malloc : ℕ → Bytes) (old s sock : ℤ) (msg c : Bytes) (c_num : ℕ) (ch : Channel) (cs : Stream)
    (rest : Bytes)
    → ((n : ℕ) → length (malloc n) ≡ n)
    → length (get_or ch.client_names c_num []) ≡ max_user_name
    → length ch.channel_name ≡ max_channel_name
    → max_string ≤ length msg
    → s ≢ sock
    → Once s (take ch.current_clients ch.socket_list)
    → Flows (c ∷ cs)
    → type_size ≤ length c
    → bytes_of (c ∷ cs)
      ≡ bytes_of (written_to s (process_incoming_message sock msg c_num ch)) ++ rest
    → (s' : Stream) × (read_packet malloc old (c ∷ cs) ≡ (
      some (get_or ch.client_names c_num [] ++ (take max_string msg ++ ch.channel_name)),
      server_msg_pkt,
      s',
    ))
      × (bytes_of s' ≡ rest)
      × Flows s'
message_delivered malloc old s sock msg c c_num ch cs rest fresh h k l n o flows whole e =
    subst
      (λ p.
        (s' : Stream) × (read_packet malloc old (c ∷ cs) ≡ (some p, server_msg_pkt, s'))
        × (bytes_of s' ≡ rest)
        × Flows s')
      (broadcast_msg_lem ch msg c_num)
      (write_packet-read_packet malloc old server_msg_pkt packet c cs rest fresh (inl refl)
        (length-broadcast_msg ch msg c_num h k l) flows whole
        (e ∙ ap (λ b. bytes_of b ++ rest) written))
  where
    packet : Bytes
    packet = broadcast_msg ch msg c_num

    other :
        (s sock : ℤ)
        → s ≢ sock
        → (if eq_ℤ s sock
            then []
            else copies s
                (write_packet server_msg_pkt packet)
                (take ch.current_clients ch.socket_list))
          ≡ copies s (write_packet server_msg_pkt packet) (take ch.current_clients ch.socket_list)
    other s sock n = ground (arith, eq_ℤ_iff s sock)

    written :
        written_to s (process_incoming_message sock msg c_num ch)
        ≡ write_packet server_msg_pkt packet
    written =
        written_to-process_incoming_message s sock msg c_num ch
        ∙ other s sock n
        ∙ copies-Once s (write_packet server_msg_pkt packet)
            (take ch.current_clients ch.socket_list) o
