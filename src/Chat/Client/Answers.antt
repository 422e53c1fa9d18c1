-- ===== src/Chat/Client/Answers.antt =====
-- What the client makes of the server's answer to a join.
use ridingthecode.Common.{
  ℕ, ◌≤◌, ◌≡◌, ◌≢◌, ◌⊎◌, inl, inr, refl, sym, ap, ◌∙◌, List, [], ◌∷◌, ◌++◌, Bool, true, false,
  arith, some, length, take, drop, copy_to, if◌then◌else◌, length-append, length-copy_to,
  length-take, take_all, get_or, replicate, length-replicate,
}
use ridingthecode.Common.Int.{ℤ, pos, eq_ℤ, eq_ℤ_iff}
use ridingthecode.Common.Text.{Bytes}
use ridingthecode.Common.Fault.{ok}
use ridingthecode.Packet.{int_bytes}
use ridingthecode.Chat.Stream.{Stream}
use ridingthecode.Chat.Stream.Receive.{bytes_of, Flows}
use ridingthecode.Chat.Packets.{
  type_size, max_clients, server_msg_pkt, channel_info_pkt, client_join_pkt, write_packet,
  read_packet, recieve_cjoin, connection_rejected,
}
use ridingthecode.Chat.Packets.RoundTrip.{IsRead, size_of, known-Table, write_packet-read_packet}
use ridingthecode.Chat.Packets.Fields.{total}
use ridingthecode.Chat.Channel.{Channel, rejection, acceptance}
use ridingthecode.Chat.Channel.Rows.{IsChannel}
use ridingthecode.Chat.Client.{Client, sent, joined_on, answered, join_channel}
use ridingthecode.Chat.Client.Judging.{refused, accepted, rows_there}

-- A packet that is written from memory longer than itself.
written_front :
    (type : ℤ) (packet : Bytes)
    → IsRead type
    → bytes_of (write_packet type packet)
      ≡ bytes_of (write_packet type (take (size_of type) packet))
unfolding write_packet
written_front type packet known =
    let t = known-Table (λ n. []) packet type known in
    let u = known-Table (λ n. []) (take (size_of type) packet) type known in
    ap (λ b. int_bytes type ++ b)
      (t.written
        ∙ ap (λ n. take n packet) (sym t.size)
        ∙ sym (
            u.written
            ∙ take_all (total u.ns) (take (size_of type) packet)
                (omega (arith, length-take (size_of type) packet, u.size))))

module _ (malloc : ℕ → Bytes) (garbage sd : ℤ) (p : Bytes) (ps : Stream) (rest : Bytes)
    (fresh : (n : ℕ) → length (malloc n) ≡ n) (flows : Flows (p ∷ ps))
    (whole : type_size ≤ length p) (real : sd ≢ pos 0) (pipe : Stream) (c : Client) where
  -- what is known once the answer is
  joined_by :
      (type : ℤ) (packet : Bytes) (c' : Client)
      → IsRead type
      → size_of type ≤ length packet
      → bytes_of (p ∷ ps) ≡ bytes_of (write_packet type packet) ++ rest
      → answered sd (some (take (size_of type) packet)) c ≡ ok c'
      → join_channel malloc garbage sd (p ∷ ps) pipe c
        ≡ ok (
          c',
          sent sd (
                write_packet client_join_pkt (copy_to (recieve_cjoin malloc pipe).0 0 c.clientname))
              ∷ [],
          (recieve_cjoin malloc pipe).1,
        )
  unfolding join_channel
  joined_by type packet c' known long e h = rw (false_of, (r).1, h) refl
    where
      r :
          (s' : Stream) × (read_packet malloc garbage (p ∷ ps)
            ≡ (some (take (size_of type) packet), type, s'))
          × (bytes_of s' ≡ rest)
          × Flows s'
      r =
          write_packet-read_packet malloc garbage type (take (size_of type) packet) p ps rest fresh
            known (omega (arith, length-take (size_of type) packet)) flows whole
            (e ∙ ap (λ b. b ++ rest) (written_front type packet known))

      false_of : eq_ℤ sd (pos 0) ≡ false
      false_of = ground (arith, eq_ℤ_iff sd (pos 0))

  -- A refusal leaves the client out of the channel, in the packet of the router and in the packet of another
  -- type that a channel sends when the name is taken.
  refused_stays :
      (type : ℤ) (stack : Bytes)
      → (type ≡ channel_info_pkt) ⊎ (type ≡ server_msg_pkt)
      → length stack ≡ 2028
      → bytes_of (p ∷ ps) ≡ bytes_of (write_packet type (rejection stack)) ++ rest
      → join_channel malloc garbage sd (p ∷ ps) pipe c
        ≡ ok (
          c,
          sent sd (
                write_packet client_join_pkt (copy_to (recieve_cjoin malloc pipe).0 0 c.clientname))
              ∷ [],
          (recieve_cjoin malloc pipe).1,
        )
  refused_stays type stack kind sized e =
      joined_by type (rejection stack) c (either kind) (small kind) e
        (refused type stack sd c kind (omega (arith, sized)))
    where
      either : (type ≡ channel_info_pkt) ⊎ (type ≡ server_msg_pkt) → IsRead type
      either (inl q) = inr (inl q)
      either (inr q) = inl q

      small :
          (type ≡ channel_info_pkt) ⊎ (type ≡ server_msg_pkt)
          → size_of type ≤ length (rejection stack)
      small (inl q) =
          omega (arith, sized, ap size_of q, length-copy_to stack 0 (int_bytes connection_rejected))
      small (inr q) =
          omega (arith, sized, ap size_of q, length-copy_to stack 0 (int_bytes connection_rejected))

  -- An acceptance takes the client into the channel, under the channel's name, with as many rows as the
  -- server tells.
  accepted_enters :
      (stack : Bytes) (ch : Channel) (n : ℕ)
      → IsChannel ch
      → n ≤ max_clients
      → length stack ≡ 2028
      → bytes_of (p ∷ ps) ≡ bytes_of (write_packet channel_info_pkt (acceptance stack ch n)) ++ rest
      → (users : List Bytes) × (length users ≡ n)
        × (join_channel malloc garbage sd (p ∷ ps) pipe c
            ≡ ok (
              joined_on sd (record c { channel_name = ch.channel_name; channel_users = users }),
              sent sd (
                    write_packet client_join_pkt
                      (copy_to (recieve_cjoin malloc pipe).0 0 c.clientname))
                  ∷ [],
              (recieve_cjoin malloc pipe).1,
            ))
  accepted_enters stack ch n v room sized e =
      let r = accepted stack ch n sd c v.title room (omega (arith, rows_there stack ch v sized)) in
      (
        r.0,
        r.1,
        joined_by channel_info_pkt (acceptance stack ch n) _ (inr (inl refl))
            (omega (arith, whole_packet)) e
            (ap (λ b. answered sd (some b) c)
                (take_all 2028 (acceptance stack ch n) (omega (arith, whole_packet)))
              ∙ r.2),
      )
    where
      whole_packet : length (acceptance stack ch n) ≡ 2028
      whole_packet = omega (
        arith,
        rows_there stack ch v sized,
        v.title,
        length-append ch.channel_name (get_or ch.client_names 0 [] ++ drop 48 stack),
      )

  -- An acceptance takes the client into the channel, under the channel's name and with as many rows
  -- as the server tells. A refusal leaves it as it was, in the packet of the router and in the
  -- packet of another type that a channel sends when the name is taken. Both hold however the answer
  -- is cut once its type is whole, and what was on the pipe is sent with the client's name. The
  -- socket is not 0, the channel's rows have their sizes, at most 100 clients are told, and memory
  -- has the size asked for.
  pub join_answered :
      (accept : Bool) (type : ℤ) (stack : Bytes) (ch : Channel) (n : ℕ)
      → (type ≡ channel_info_pkt) ⊎ ((accept ≡ false) × (type ≡ server_msg_pkt))
      → IsChannel ch
      → n ≤ max_clients
      → length stack ≡ 2028
      → bytes_of (p ∷ ps)
        ≡ bytes_of (write_packet type (if accept then acceptance stack ch n else rejection stack))
          ++ rest
      → (users : List Bytes) × (length users ≡ n)
        × (join_channel malloc garbage sd (p ∷ ps) pipe c
            ≡ ok (
              (if accept
                  then joined_on sd
                      (record c { channel_name = ch.channel_name; channel_users = users })
                  else c),
              sent sd (
                    write_packet client_join_pkt
                      (copy_to (recieve_cjoin malloc pipe).0 0 c.clientname))
                  ∷ [],
              (recieve_cjoin malloc pipe).1,
            ))
  join_answered true type stack ch n (inl k) v room sized e =
      accepted_enters stack ch n v room sized
        (e ∙ ap (λ t. bytes_of (write_packet t (acceptance stack ch n)) ++ rest) k)
  join_answered true type stack ch n (inr (k, l)) v room sized e = absurd (ground (arith, k))
  join_answered false type stack ch n (inl k) v room sized e =
      (replicate n [], length-replicate n [], refused_stays type stack (inl k) sized e)
  join_answered false type stack ch n (inr (k, l)) v room sized e =
      (replicate n [], length-replicate n [], refused_stays type stack (inr l) sized e)
