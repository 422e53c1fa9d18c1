-- ===== src/Chat/Channel/Members.antt =====
-- The clients of a channel: its rows keep their sizes, and a name that is taken is refused.
use ridingthecode.Common.{
  ℕ, zero, suc, ◌+◌, ◌≤◌, ◌≡◌, inl, inr, refl, ◌∙◌, List, [], ◌++◌, Bool, true, false, Option, none,
  some, arith, length, get_or, length-set, length-replicate, length-take, ltb, if◌then◌else◌,
  Bool-cases, copy_to, length-copy_to, ltb→lt,
}
use ridingthecode.Common.Int.{ℤ, negsuc, eq_ℤ}
use ridingthecode.Common.Text.{Bytes, c_string}
use ridingthecode.Common.Fault.{OnOk, >>=-OnOk, Fault, ok, fault}
use ridingthecode.Chat.Stream.{Stream, read_pipe}
use ridingthecode.Chat.Packets.{max_clients, max_user_name}
use ridingthecode.Chat.Channel.{
  Channel, Effect, Turn, going, closed, broken, process_client_quit, client_packet, client_round,
  client_rounds, clients_turn, channel_turn, pipe_turn, pipe_command, added_turn,
  process_add_client, join_client, admit, name_taken, is_set, piped, fd_clr, close_sockets,
  client_add, channel_close_code, int_of, bytes_word, int_bytes,
}
use ridingthecode.Chat.Channel.Rows.{AllLength-set, IsChannel, admit_room, admit_past}

process_client_quit-IsChannel :
    (i : ℕ) (ch : Channel) → IsChannel ch → IsChannel (process_client_quit i ch).0
unfolding process_client_quit
process_client_quit-IsChannel i ch v = record {
  names = length-set ch.client_names i _ ∙ v.names;
  rows_fit =
      AllLength-set max_user_name ch.client_names i _ v.rows_fit
        (length-replicate max_user_name (zero + zero));
  sockets = length-set ch.socket_list i _ ∙ v.sockets;
  in_use = v.in_use;
  title = v.title;
}

-- other descriptors and another type
settings-IsChannel :
    (ch : Channel) (fds : List ℤ) (type : ℤ)
    → IsChannel ch
    → IsChannel (record ch { listen_fds = fds; type = type })
settings-IsChannel ch fds type v = record {
  names = v.names;
  rows_fit = v.rows_fit;
  sockets = v.sockets;
  in_use = v.in_use;
  title = v.title;
}

client_packet-IsChannel :
    (i : ℕ) (sock : ℤ) (packet : Option Bytes) (type : ℤ) (ch : Channel)
    → IsChannel ch
    → IsChannel (client_packet i sock packet type ch).0
unfolding client_packet
client_packet-IsChannel i sock packet type ch v = ground (
  arith,
  process_client_quit-IsChannel i
      (record ch { listen_fds = fd_clr sock ch.listen_fds; type = type })
      (settings-IsChannel ch (fd_clr sock ch.listen_fds) type v),
  settings-IsChannel ch ch.listen_fds type v,
)

admit-OnOk :
    (stack info : Bytes) (ch : Channel)
    → IsChannel ch
    → max_user_name ≤ length info
    → OnOk (λ r. IsChannel r.0) (admit stack info ch)
admit-OnOk stack info ch v h = elim (Bool-cases (ltb ch.current_clients max_clients)) [
  | inl e ↦ rw (admit_room stack info ch v (ltb→lt ch.current_clients max_clients e)) (record {
    names = length-set ch.client_names ch.current_clients _ ∙ v.names;
    rows_fit =
        AllLength-set max_user_name ch.client_names ch.current_clients _ v.rows_fit
          (omega (arith, length-take max_user_name info));
    sockets = length-set ch.socket_list ch.current_clients _ ∙ v.sockets;
    in_use = omega (arith, ltb→lt ch.current_clients max_clients e);
    title = v.title;
  })
  | inr e ↦ rw (admit_past stack info ch v (past ch.current_clients e)) tt
]
  where
    past : (n : ℕ) → ltb n max_clients ≡ false → max_clients ≤ n
    past n e = ground arith

join_client-OnOk :
    (stack info : Bytes) (ch : Channel)
    → IsChannel ch
    → max_user_name ≤ length info
    → OnOk (λ r. IsChannel r.0) (join_client stack info ch)
unfolding join_client
join_client-OnOk stack info ch v h =
    elim (Bool-cases (name_taken ch.client_names (c_string info) ch.current_clients 0)) [
      | inl e ↦ rw e v
      | inr e ↦ rw e (admit-OnOk stack info ch v h)
    ]

length-piped : (memory : Bytes) (part : Option Bytes) → length (piped memory part) ≡ length memory
length-piped memory none = refl
length-piped memory (some part) = length-copy_to memory 0 part

module _ (malloc stack : ℕ → Bytes) (active : ℤ → Bool) where
  client_round-OnOk :
      (i : ℕ) (ch : Channel) (streams : ℤ → Stream)
      → IsChannel ch
      → OnOk (λ r. IsChannel r.0) (client_round malloc stack active i ch streams)
  unfolding client_round
  client_round-OnOk i ch streams v =
      >>=-OnOk (λ _. Unit {0}) (λ r. IsChannel r.0)
        (is_set active (get_or ch.socket_list i (negsuc 0))) _ (any _)
        λ ready _. either ready _ _ (client_packet-IsChannel i _ _ _ ch v) v
    where
      any : (m : Fault Bool) → OnOk (λ _. Unit {0}) m
      any (ok b) = tt
      any fault = tt

      either :
          (ready : Bool) (r q : Channel × (ℤ → Stream) × List Effect)
          → IsChannel r.0
          → IsChannel q.0
          → OnOk
              (λ (p : Channel × (ℤ → Stream) × List Effect). IsChannel p.0)
              (if ready then ok r else ok q)
      either true r q h k = h
      either false r q h k = k

  client_rounds-OnOk :
      (k i : ℕ) (ch : Channel) (streams : ℤ → Stream)
      → IsChannel ch
      → OnOk (λ r. IsChannel r.0) (client_rounds malloc stack active k i ch streams)
  unfolding client_rounds
  client_rounds-OnOk zero i ch streams v = v
  client_rounds-OnOk (suc k) i ch streams v =
      >>=-OnOk (λ r. IsChannel r.0) (λ r. IsChannel r.0)
        (client_round malloc stack active i ch streams) _ (client_round-OnOk i ch streams v)
        λ r h.
          >>=-OnOk (λ q. IsChannel q.0) (λ q. IsChannel q.0)
            (client_rounds malloc stack active k (i + 1) r.0 r.1) _
            (client_rounds-OnOk k (i + 1) r.0 r.1 h) (λ q w. w)

  -- A turn that goes on leaves a channel with its rows.
  abbrev pub KeepsTurn : Turn → Type 0
  KeepsTurn (going ch pipe streams effects) = IsChannel ch
  KeepsTurn (closed effects) = Unit {0}
  KeepsTurn broken = Unit {0}

  clients_turn-KeepsTurn :
      (effects : List Effect) (ch : Channel) (pipe : Stream) (streams : ℤ → Stream)
      → IsChannel ch
      → KeepsTurn (clients_turn malloc stack active effects ch pipe streams)
  unfolding clients_turn
  clients_turn-KeepsTurn effects ch pipe streams v =
      ending (client_rounds malloc stack active ch.current_clients 0 ch streams)
        (client_rounds-OnOk ch.current_clients 0 ch streams v)
    where
      ending :
          (m : Fault (Channel × (ℤ → Stream) × List Effect))
          → OnOk (λ r. IsChannel r.0) m
          → KeepsTurn (elim m [
            | fault ↦ broken
            | ok (ch', streams', more) ↦ going ch' pipe streams' (effects ++ more)
          ])
      ending fault h = tt
      ending (ok r) h = h

  added_turn-KeepsTurn :
      (streams : ℤ → Stream) (m : Fault (Channel × List Effect × Stream))
      → OnOk (λ r. IsChannel r.0) m
      → KeepsTurn (added_turn malloc stack active streams m)
  unfolding added_turn
  added_turn-KeepsTurn streams fault h = tt
  added_turn-KeepsTurn streams (ok (ch, effects, pipe)) h =
      clients_turn-KeepsTurn effects ch pipe streams h

  process_add_client-OnOk :
      (pipe : Stream) (ch : Channel)
      → ((n : ℕ) → length (stack n) ≡ n)
      → IsChannel ch
      → OnOk (λ r. IsChannel r.0) (process_add_client stack pipe ch)
  unfolding process_add_client
  process_add_client-OnOk pipe ch fresh v =
      >>=-OnOk (λ r. IsChannel r.0) (λ r. IsChannel r.0) (join_client (stack 2028) _ ch) _
        (join_client-OnOk (stack 2028) _ ch v
          (omega (arith, length-piped (stack 44) (read_pipe 44 pipe).0, fresh 44)))
        (λ r h. h)

  pipe_command-KeepsTurn :
      (ch : Channel) (pipe : Stream) (streams : ℤ → Stream)
      → ((n : ℕ) → length (stack n) ≡ n)
      → IsChannel ch
      → KeepsTurn (pipe_command malloc stack active ch pipe streams)
  unfolding pipe_command
  pipe_command-KeepsTurn ch pipe streams fresh v = elim (Bool-cases (eq_ℤ ch.type client_add)) [
    | inl e ↦ rw e (
        added_turn-KeepsTurn streams (process_add_client stack pipe ch)
          (process_add_client-OnOk pipe ch fresh v))
    | inr e ↦ rw e (closing (eq_ℤ ch.type channel_close_code))
  ]
    where
      closing :
          (b : Bool)
          → KeepsTurn (
              if b
              then closed (close_sockets malloc stack active ch.num_clients ch.socket_list)
              else clients_turn malloc stack active [] ch pipe streams)
      closing true = tt
      closing false = clients_turn-KeepsTurn [] ch pipe streams v

  pipe_turn-KeepsTurn :
      (ch : Channel) (p : Option Bytes × Stream) (streams : ℤ → Stream)
      → ((n : ℕ) → length (stack n) ≡ n)
      → IsChannel ch
      → KeepsTurn (pipe_turn malloc stack active ch p streams)
  unfolding pipe_turn
  pipe_turn-KeepsTurn ch (none, pipe) streams fresh v = clients_turn-KeepsTurn [] ch pipe streams v
  pipe_turn-KeepsTurn ch (some part, pipe) streams fresh v =
      pipe_command-KeepsTurn _ pipe streams fresh (
        settings-IsChannel ch ch.listen_fds
          (int_of (bytes_word (copy_to (int_bytes ch.type) 0 part))) v)

  -- Whatever arrives on the pipe and on the sockets, a turn of the channel that goes on keeps the
  -- sizes of its rows, and no more of them in use than there are; the stack gives memory of the size
  -- asked for.
  pub channel_turn-IsChannel :
      (pipe_ready : Bool) (ch : Channel) (pipe : Stream) (streams : ℤ → Stream)
      → ((n : ℕ) → length (stack n) ≡ n)
      → IsChannel ch
      → KeepsTurn (channel_turn malloc stack active pipe_ready ch pipe streams)
  unfolding channel_turn
  channel_turn-IsChannel true ch pipe streams fresh v =
      pipe_turn-KeepsTurn ch (read_pipe 4 pipe) streams fresh v
  channel_turn-IsChannel false ch pipe streams fresh v = clients_turn-KeepsTurn [] ch pipe streams v
