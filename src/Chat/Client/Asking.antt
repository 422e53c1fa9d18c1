-- ===== src/Chat/Client/Asking.antt =====
-- What the router of the client does with what the input thread puts on its pipe.
use ridingthecode.Common.{
  ℕ, ◌≤◌, ◌≡◌, inl, inr, refl, sym, ap, ◌∙◌, [], ◌∷◌, ◌++◌, true, false, arith, some, length, take,
  drop, copy_to, if◌then◌else◌, Bool-cases, length-append, length-take, take_all,
  take-length-append, append_assoc, if_true, if_false,
}
use ridingthecode.Common.Int.{ℤ, bytes_word}
use ridingthecode.Common.Text.{Bytes, drop-front, c_string}
use ridingthecode.Packet.{int_bytes}
use ridingthecode.Chat.Stream.{Stream, read, read_pipe}
use ridingthecode.Chat.Stream.Receive.{bytes_of, Flows, read-Part, Taken}
use ridingthecode.Chat.Packets.{
  type_size, client_msg_pkt, client_join_pkt, write_packet, recieve_cmsg, cmsg_fields, rcv_fields,
}
use ridingthecode.Chat.Packets.Fields.{total, rcv_fields-Taken}
use ridingthecode.Chat.Packets.RoundTrip.{IsRead, size_of, known-Table, front_part, read_first}
use ridingthecode.Chat.Client.{
  Client, going, sent, log_of, check_input_pipes, client_msg, join_channel_code,
}

-- a code on the pipe in one piece, before other bytes
pub record Code (type : ℤ) (p : Bytes) (ps : Stream) (rest : Bytes) : Type 0 where
  pub flows : Flows (p ∷ ps)
  pub whole : type_size ≤ length p
  pub bytes : bytes_of (p ∷ ps) ≡ int_bytes type ++ rest

pub Code-read :
    (type : ℤ) (p : Bytes) (ps : Stream) (rest : Bytes)
    → Code type p ps rest
    → (s' : Stream) × (read_pipe type_size (p ∷ ps) ≡ (some (int_bytes type), s'))
      × (bytes_of s' ≡ rest)
      × Flows s'
unfolding read_pipe read
Code-read type [] ps rest c = absurd (omega (arith, c.whole))
Code-read type (x ∷ xs) ps rest c =
    let t = read-Part 4 ((x ∷ xs) ∷ ps) c.flows in
    let q =
      front_part ((x ∷ xs) ∷ ps) (read 4 ((x ∷ xs) ∷ ps)).1 (read 4 ((x ∷ xs) ∷ ps)).0
        (int_bytes type) rest t.cut c.bytes (full (x ∷ xs) c.whole) in
    (
      (read 4 ((x ∷ xs) ∷ ps)).1,
      whole x xs ∙ ap (λ b. (some b, (read 4 ((x ∷ xs) ∷ ps)).1)) q.0,
      q.1,
      t.still,
    )
  where
    full : (p : Bytes) → 4 ≤ length p → length (read 4 (p ∷ ps)).0 ≡ 4
    full p h = ap length (read_first p ps) ∙ omega (arith, length-take 4 p)

    whole :
        (x : ℕ) (xs : Bytes)
        → read_pipe 4 ((x ∷ xs) ∷ ps)
          ≡ (some (read 4 ((x ∷ xs) ∷ ps)).0, (read 4 ((x ∷ xs) ∷ ps)).1)
    whole x xs = refl

-- a packet that was put on the pipe
pub Code-packet :
    (type : ℤ) (packet p : Bytes) (ps : Stream) (rest : Bytes)
    → IsRead type
    → length packet ≡ size_of type
    → Flows (p ∷ ps)
    → type_size ≤ length p
    → bytes_of (p ∷ ps) ≡ bytes_of (write_packet type packet) ++ rest
    → Code type p ps (packet ++ rest)
unfolding write_packet
Code-packet type packet p ps rest known sized flows whole e =
    let t = known-Table (λ n. []) packet type known in
    record {
      flows = flows;
      whole = whole;
      bytes =
          e
          ∙ ap (λ b. (int_bytes type ++ b) ++ rest)
              (t.written ∙ take_all (total t.ns) packet (omega (arith, sized, t.size)))
          ∙ append_assoc (int_bytes type) packet rest;
    }

module _ (malloc : ℕ → Bytes) (garbage sd : ℤ) (server : Stream) (p : Bytes) (ps : Stream)
    (rest : Bytes) (c : Client) (flows : Flows (p ∷ ps)) (whole : type_size ≤ length p) where
  -- A message that is typed outside of a channel is refused and stays on the pipe, where its bytes are taken
  -- for what comes next.
  message_left :
      (msg : Bytes)
      → c.in_channel ≡ false
      → length msg ≡ 1024
      → bytes_of (p ∷ ps) ≡ bytes_of (write_packet client_msg_pkt msg) ++ rest
      → (pipe' : Stream) × (check_input_pipes malloc garbage sd server true (p ∷ ps) c
          ≡ going c pipe' [])
        × (bytes_of pipe' ≡ msg ++ rest)
  unfolding check_input_pipes bytes_word copy_to
  message_left msg out sized e =
      let t =
        Code-read client_msg p ps (msg ++ rest)
          (Code-packet client_msg msg p ps rest (inr (inr (inl refl))) sized flows whole e) in
      (t.0, rw (t.1, out) refl, t.2)

  -- A second `/join` inside a channel is refused and its packet stays on the pipe in the same way.
  pub join_left :
      (info : Bytes)
      → c.in_channel ≡ true
      → length info ≡ 44
      → bytes_of (p ∷ ps) ≡ bytes_of (write_packet client_join_pkt info) ++ rest
      → (pipe' : Stream) × (check_input_pipes malloc garbage sd server true (p ∷ ps) c
          ≡ going c pipe' [])
        × (bytes_of pipe' ≡ info ++ rest)
  unfolding check_input_pipes bytes_word copy_to
  join_left info inside sized e =
      let t = Code-read join_channel_code p ps (info ++ rest) (
        Code-packet join_channel_code info p ps rest (inr (inr (inr (inr refl)))) sized flows whole
          e) in
      (t.0, rw (t.1, inside) refl, t.2)

  -- A message that is typed in a channel is sent to the server as it is, and logged if that is asked for.
  message_sent :
      (msg : Bytes)
      → ((n : ℕ) → length (malloc n) ≡ n)
      → c.in_channel ≡ true
      → length msg ≡ 1024
      → bytes_of (p ∷ ps) ≡ bytes_of (write_packet client_msg_pkt msg) ++ rest
      → (pipe' : Stream) × (check_input_pipes malloc garbage sd server true (p ∷ ps) c
          ≡ going c pipe' (
              log_of c (c_string msg)
              ++ (sent c.client_socket (write_packet client_msg_pkt msg) ∷ [])))
        × (bytes_of pipe' ≡ rest)
        × Flows pipe'
  unfolding check_input_pipes bytes_word copy_to recieve_cmsg
  message_sent msg fresh inside sized e = (
    (rcv_fields cmsg_fields (malloc 1024) t.0).1,
    rw (t.1, inside, got) refl,
    u.behind ∙ ap (drop 1024) t.2 ∙ drop-front 1024 msg rest sized,
    u.flows,
  )
    where
      t :
          (s' : Stream) × (read_pipe type_size (p ∷ ps) ≡ (some (int_bytes client_msg), s'))
          × (bytes_of s' ≡ msg ++ rest)
          × Flows s'
      t =
          Code-read client_msg p ps (msg ++ rest)
            (Code-packet client_msg msg p ps rest (inr (inr (inl refl))) sized flows whole e)

      u :
          Taken 1024 t.0
            (rcv_fields cmsg_fields (malloc 1024) t.0).0
            (rcv_fields cmsg_fields (malloc 1024) t.0).1
      u =
          rcv_fields-Taken cmsg_fields (malloc 1024) t.0 (fresh 1024) t.3
            (omega (arith, ap length t.2, length-append msg rest, sized))

      got : (rcv_fields cmsg_fields (malloc 1024) t.0).0 ≡ msg
      got =
          u.front
          ∙ ap (take 1024) t.2
          ∙ sym (ap (λ n. take n (msg ++ rest)) sized)
          ∙ take-length-append msg rest

  -- A message of 1024 bytes that the input thread puts on the pipe, its code in one piece, is sent
  -- to the server as it is by a client in a channel, which logs it if that is asked for. A client in
  -- none refuses it and leaves its bytes on the pipe, in front of what comes next. `malloc` gives
  -- what is asked for.
  pub message_turn :
      (msg : Bytes)
      → ((n : ℕ) → length (malloc n) ≡ n)
      → length msg ≡ 1024
      → bytes_of (p ∷ ps) ≡ bytes_of (write_packet client_msg_pkt msg) ++ rest
      → (pipe' : Stream) × (check_input_pipes malloc garbage sd server true (p ∷ ps) c
          ≡ going c pipe' (
              if c.in_channel
              then log_of c (c_string msg)
                ++ (sent c.client_socket (write_packet client_msg_pkt msg) ∷ [])
              else []))
        × (bytes_of pipe' ≡ (if c.in_channel then rest else msg ++ rest))
  message_turn msg fresh sized e = elim (Bool-cases c.in_channel) [
    | inl q ↦
        let t = message_sent msg fresh q sized e in
        (t.0, t.1 ∙ ap (going c t.0) (sym (if_true _ _ q)), t.2 ∙ sym (if_true _ _ q))
    | inr q ↦
        let t = message_left msg q sized e in
        (t.0, t.1 ∙ ap (going c t.0) (sym (if_false _ _ q)), t.2 ∙ sym (if_false _ _ q))
  ]
