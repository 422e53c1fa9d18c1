-- ===== src/Chat/Packets/Desync.antt =====
-- Where a reader of packets and the stream come apart.
use ridingthecode.Common.{
  ℕ, zero, suc, ◌≤◌, ◌<◌, ◌≡◌, ◌≢◌, refl, sym, ap, ◌∙◌, List, [], ◌∷◌, ◌++◌, arith, some, none,
  length, take, drop, take-append-drop, append_assoc, copy_to,
}
use ridingthecode.Common.Int.{ℤ, pos, bytes_word}
use ridingthecode.Common.Text.{Bytes}
use ridingthecode.Packet.{int_bytes}
use ridingthecode.Chat.Stream.{Stream, read}
use ridingthecode.Chat.Stream.Receive.{bytes_of, Flows, rcv_variable_end}
use ridingthecode.Chat.Packets.{
  write_packet, write_body, read_packet, recieve_body, type_loop, rcv_fields, type_size,
  smsg_fields, server_kick_pkt,
}
use ridingthecode.Chat.Packets.Fields.{bytes_of-write_fields, total}
use ridingthecode.Chat.Packets.RoundTrip.{
  IsRead, size_of, TypeRead, type_read, word_back, known-Table,
}

-- A kick packet, which `write_packet` writes, is not read: `read_packet` gives `NULL` and leaves the
-- packet's bytes on the stream, where they are taken for the next packet.
pub kick_unread :
    (malloc : ℕ → Bytes) (old : ℤ) (packet c : Bytes) (cs : Stream) (rest : Bytes)
    → Flows (c ∷ cs)
    → type_size ≤ length c
    → bytes_of (c ∷ cs) ≡ bytes_of (write_packet server_kick_pkt packet) ++ rest
    → (s' : Stream) × (read_packet malloc old (c ∷ cs) ≡ (none, server_kick_pkt, s'))
      × (bytes_of s' ≡ take (total smsg_fields) packet ++ rest)
      × Flows s'
unfolding read_packet write_packet recieve_body write_body
kick_unread malloc old packet c cs rest h k e =
    (t.s', rw (t.result, word_back server_kick_pkt (omega arith)), t.behind, t.flows)
  where
    front :
        bytes_of (c ∷ cs) ≡ int_bytes server_kick_pkt ++ (take (total smsg_fields) packet ++ rest)
    front =
        e
        ∙ ap (λ b. (int_bytes server_kick_pkt ++ b) ++ rest)
            (bytes_of-write_fields smsg_fields packet)
        ∙ append_assoc (int_bytes server_kick_pkt) (take (total smsg_fields) packet) rest

    t : TypeRead old server_kick_pkt (c ∷ cs) (take (total smsg_fields) packet ++ rest)
    t = type_read old server_kick_pkt c cs (take (total smsg_fields) packet ++ rest) h k front

rcv_fields_end : (ns : List ℕ) (packet : Bytes) → rcv_fields ns packet [] ≡ (packet, [])
unfolding rcv_fields
rcv_fields_end [] packet = refl
rcv_fields_end (n ∷ ns) packet =
    rw (rcv_variable_end (take n packet) n, rcv_fields_end ns (drop n packet))
      (ap (λ p. (p, [])) (take-append-drop n packet))

-- At the end of the stream, as when the peer has gone, the type of the packet before is kept, and a
-- packet of that type is returned that is the memory `malloc` gave.
pub read_packet_end :
    (malloc : ℕ → Bytes) (old : ℤ)
    → IsRead old
    → read_packet malloc old [] ≡ (some (malloc (size_of old)), old, [])
unfolding read_packet type_loop read
read_packet_end malloc old known =
    let t = known-Table malloc [] old known in
    rw (word_back old t.small, t.read [], rcv_fields_end t.ns (malloc (total t.ns)))
      (ap (λ n. (some (malloc n), old, [])) (sym t.size))

-- A type below 256 that comes in two pieces is read as another number, since the second piece is
-- stored over the first.
pub split_type_misread :
    (malloc : ℕ → Bytes) (old : ℤ) (t k : ℕ) (s : Stream)
    → 0 < t
    → t < 256
    → 0 < k
    → k < 4
    → (read_packet malloc old (take k (int_bytes (pos t)) ∷ drop k (int_bytes (pos t)) ∷ s)).1
      ≢ pos t
unfolding read_packet type_loop read copy_to bytes_word
split_type_misread malloc old t zero s h l p q e = absurd (omega arith)
split_type_misread malloc old t (suc zero) s h l p q e = ground arith
split_type_misread malloc old t (suc (suc zero)) s h l p q e = ground arith
split_type_misread malloc old t (suc (suc (suc zero))) s h l p q e = ground arith
split_type_misread malloc old t (suc (suc (suc (suc k)))) s h l p q e = absurd (omega arith)
