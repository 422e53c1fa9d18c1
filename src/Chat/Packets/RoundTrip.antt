-- ===== src/Chat/Packets/RoundTrip.antt =====
-- A packet that is written is read back, and what goes wrong where it is not.
use ridingthecode.Common.{
  suc, ℕ, ◌-◌, ◌≤◌, ◌<◌, ◌≡◌, ◌⊎◌, inl, inr, refl, sym, ap, ◌∙◌, List, ◌∷◌, ◌++◌, arith, some,
  length, take, drop, get_or, copy_to, length-append, length-take, append-nil, append_assoc,
  copy_to_front, take-length-append, drop-length-append, take_all, subst,
}
use ridingthecode.Common.Int.{
  ℤ, pos_part, IsInt32, int_of, word_of, bytes_word, bytes_word-word_bytes, word_of-lt,
  int_of-word_of,
}
use ridingthecode.Common.Text.{Bytes}
use ridingthecode.Packet.{int_bytes}
use ridingthecode.Chat.Stream.{Stream, read}
use ridingthecode.Chat.Stream.Receive.{bytes_of, Flows, Taken, read-Part}
use ridingthecode.Chat.Packets.{
  write_packet, write_body, read_packet, recieve_body, type_loop, rcv_fields, returning,
  packet_sizes, smsg_fields, cinfo_fields, cmsg_fields, cquit_fields, cjoin_fields, server_msg_pkt,
  channel_info_pkt, client_msg_pkt, client_quit_pkt, client_join_pkt, type_size, max_string,
}
use ridingthecode.Chat.Packets.Fields.{total, bytes_of-write_fields, rcv_fields-Taken}

-- The packets that `read_packet` knows.
abbrev pub IsRead : ℤ → Type 0
IsRead type =
    (type ≡ server_msg_pkt)
    ⊎ (type ≡ channel_info_pkt)
    ⊎ (type ≡ client_msg_pkt)
    ⊎ (type ≡ client_quit_pkt)
    ⊎ (type ≡ client_join_pkt)

-- the bytes of a packet of this type
abbrev pub size_of : ℤ → ℕ
size_of type = get_or packet_sizes (pos_part type) 0

type_loop_done : (f : ℕ) (mem : Bytes) (s : Stream) → type_loop (suc f) 0 mem s ≡ (mem, s)
unfolding type_loop read
type_loop_done f mem s = refl

-- A type that comes in one piece is stored at once.
type_loop_once :
    (f n : ℕ) (mem : Bytes) (s : Stream)
    → length (read n s).0 ≡ n
    → 0 < n
    → type_loop (suc (suc f)) n mem s ≡ (copy_to mem 0 (read n s).0, (read n s).1)
unfolding type_loop
type_loop_once f n mem s e h = ground (
  arith,
  ap (λ k. type_loop (suc f) k (copy_to mem 0 (read n s).0) (read n s).1) (none_left n e),
  type_loop_done f (copy_to mem 0 (read n s).0) (read n s).1,
)
  where
    none_left : (n : ℕ) → length (read n s).0 ≡ n → n - length (read n s).0 ≡ 0
    none_left n e = omega arith

pub read_first : (c : Bytes) (cs : Stream) → (read 4 (c ∷ cs)).0 ≡ take 4 c
unfolding read
read_first c cs = refl

-- What a stream holds behind its first four bytes.
pub front_part :
    (s s' : Stream) (part front rest : Bytes)
    → bytes_of s ≡ part ++ bytes_of s'
    → bytes_of s ≡ front ++ rest
    → length part ≡ length front
    → (part ≡ front) × (bytes_of s' ≡ rest)
front_part s s' part front rest e h l = (
  sym (take-length-append part (bytes_of s'))
      ∙ ap (take (length part)) (sym e ∙ h)
      ∙ ap (λ k. take k (front ++ rest)) l
      ∙ take-length-append front rest,
  sym (drop-length-append part (bytes_of s'))
      ∙ ap (drop (length part)) (sym e ∙ h)
      ∙ ap (λ k. drop k (front ++ rest)) l
      ∙ drop-length-append front rest,
)

-- what is left of a stream once the type is read from it
pub record TypeRead (old : ℤ) (type : ℤ) (s : Stream) (rest : Bytes) : Type 0 where
  pub s' : Stream
  pub result : type_loop 5 4 (int_bytes old) s ≡ (int_bytes type, s')
  pub behind : bytes_of s' ≡ rest
  pub flows : Flows s'

pub type_read :
    (old type : ℤ) (c : Bytes) (cs : Stream) (rest : Bytes)
    → Flows (c ∷ cs)
    → 4 ≤ length c
    → bytes_of (c ∷ cs) ≡ int_bytes type ++ rest
    → TypeRead old type (c ∷ cs) rest
type_read old type c cs rest h k e =
    let p = read-Part 4 (c ∷ cs) h in
    let q =
      front_part (c ∷ cs) (read 4 (c ∷ cs)).1 (read 4 (c ∷ cs)).0 (int_bytes type) rest p.cut e
        full in
    record {
      s' = (read 4 (c ∷ cs)).1;
      result =
          type_loop_once 3 4 (int_bytes old) (c ∷ cs) full (omega arith)
          ∙ ap (λ m. (copy_to (int_bytes old) 0 m, (read 4 (c ∷ cs)).1)) q.0
          ∙ ap (λ m. (m, (read 4 (c ∷ cs)).1)) (over old type);
      behind = q.1;
      flows = p.still;
    }
  where
    full : length (read 4 (c ∷ cs)).0 ≡ 4
    full = ap length (read_first c cs) ∙ omega (arith, length-take 4 c)

    over : (old type : ℤ) → copy_to (int_bytes old) 0 (int_bytes type) ≡ int_bytes type
    over old type = copy_to_front (int_bytes old) (int_bytes type) 0 (omega arith)

pub word_back : (type : ℤ) → IsInt32 type → int_of (bytes_word (int_bytes type)) ≡ type
word_back type h =
    ap int_of (bytes_word-word_bytes (word_of type) (word_of-lt type)) ∙ int_of-word_of type h

module _ (malloc : ℕ → Bytes) (fresh : (n : ℕ) → length (malloc n) ≡ n) (old type : ℤ) (ns : List ℕ)
    (packet c : Bytes) (cs : Stream) (rest : Bytes) where
  -- a packet whose fields are written and read by the table `ns`
  read_by_table :
      bytes_of (write_body type packet) ≡ take (total ns) packet
      → ((s : Stream)
          → recieve_body malloc type s ≡ returning (rcv_fields ns (malloc (total ns)) s))
      → IsInt32 type
      → length packet ≡ total ns
      → Flows (c ∷ cs)
      → type_size ≤ length c
      → bytes_of (c ∷ cs) ≡ bytes_of (write_packet type packet) ++ rest
      → (s' : Stream) × (read_packet malloc old (c ∷ cs) ≡ (some packet, type, s'))
        × (bytes_of s' ≡ rest)
        × Flows s'
  unfolding read_packet write_packet
  read_by_table wb rb i l h k e = (
    (rcv_fields ns (malloc (total ns)) t.s').1,
    rw (t.result, word_back type i, rb t.s', got),
    u.behind
        ∙ ap (drop (total ns)) t.behind
        ∙ sym (ap (λ n. drop n (packet ++ rest)) l)
        ∙ drop-length-append packet rest,
    u.flows,
  )
    where
      front : bytes_of (c ∷ cs) ≡ int_bytes type ++ (packet ++ rest)
      front =
          e
          ∙ ap (λ b. (int_bytes type ++ b) ++ rest) (wb ∙ take_all (total ns) packet (omega arith))
          ∙ append_assoc (int_bytes type) packet rest

      t : TypeRead old type (c ∷ cs) (packet ++ rest)
      t = type_read old type c cs (packet ++ rest) h k front

      u :
          Taken
            (total ns)
            t.s'
            (rcv_fields ns (malloc (total ns)) t.s').0
            (rcv_fields ns (malloc (total ns)) t.s').1
      u =
          rcv_fields-Taken ns (malloc (total ns)) t.s' (fresh (total ns)) t.flows
            (omega (arith, ap length t.behind, length-append packet rest))

      got : (rcv_fields ns (malloc (total ns)) t.s').0 ≡ packet
      got =
          u.front
          ∙ ap (take (total ns)) t.behind
          ∙ sym (ap (λ n. take n (packet ++ rest)) l)
          ∙ take-length-append packet rest

-- the table by which packets of a type are written and read
pub record Table (malloc : ℕ → Bytes) (packet : Bytes) (type : ℤ) : Type 0 where
  pub ns : List ℕ
  pub written : bytes_of (write_body type packet) ≡ take (total ns) packet
  pub read :
      (s : Stream) → recieve_body malloc type s ≡ returning (rcv_fields ns (malloc (total ns)) s)
  pub small : IsInt32 type
  pub size : size_of type ≡ total ns

pub known-Table :
    (malloc : ℕ → Bytes) (packet : Bytes) (type : ℤ) → IsRead type → Table malloc packet type
unfolding write_body recieve_body
known-Table malloc packet type (inl e) = subst (Table malloc packet) (sym e) (record {
  ns = smsg_fields;
  written = bytes_of-write_fields smsg_fields packet;
  read = λ s. refl;
  small = omega arith;
  size = refl;
})
known-Table malloc packet type (inr (inl e)) = subst (Table malloc packet) (sym e) (record {
  ns = cinfo_fields;
  written = bytes_of-write_fields cinfo_fields packet;
  read = λ s. refl;
  small = omega arith;
  size = refl;
})
known-Table malloc packet type (inr (inr (inl e))) = subst (Table malloc packet) (sym e) (record {
  ns = cmsg_fields;
  written = append-nil (take max_string packet);
  read = λ s. refl;
  small = omega arith;
  size = refl;
})
known-Table malloc packet type (inr (inr (inr (inl e)))) =
    subst (Table malloc packet) (sym e) (record {
      ns = cquit_fields;
      written = append-nil (take type_size packet);
      read = λ s. refl;
      small = omega arith;
      size = refl;
    })
known-Table malloc packet type (inr (inr (inr (inr e)))) =
    subst (Table malloc packet) (sym e) (record {
      ns = cjoin_fields;
      written = bytes_of-write_fields cjoin_fields packet;
      read = λ s. refl;
      small = omega arith;
      size = refl;
    })

-- Whatever memory of the size asked for `malloc` gives and however the stream is cut, once the type
-- comes in one piece: a packet of a type that `read_packet` knows, of that type's size, which
-- `write_packet` put on the stream is read back with its type, and what was behind it is left on the
-- stream.
pub write_packet-read_packet :
    (malloc : ℕ → Bytes) (old type : ℤ) (packet c : Bytes) (cs : Stream) (rest : Bytes)
    → ((n : ℕ) → length (malloc n) ≡ n)
    → IsRead type
    → length packet ≡ size_of type
    → Flows (c ∷ cs)
    → type_size ≤ length c
    → bytes_of (c ∷ cs) ≡ bytes_of (write_packet type packet) ++ rest
    → (s' : Stream) × (read_packet malloc old (c ∷ cs) ≡ (some packet, type, s'))
      × (bytes_of s' ≡ rest)
      × Flows s'
write_packet-read_packet malloc old type packet c cs rest fresh known l h k w =
    let t = known-Table malloc packet type known in
    read_by_table malloc fresh old type t.ns packet c cs rest t.written t.read t.small (l ∙ t.size)
      h k w
