-- ===== src/Chat/Packets/Fields.antt =====
-- Fields written one after the other and read one after the other.
use ridingthecode.Common.{
  ℕ, ◌+◌, ◌≤◌, ◌≡◌, refl, sym, ap, ◌∙◌, List, [], ◌∷◌, ◌++◌, arith, length, take, drop, length-take,
  length-drop, take-add, drop-add, ap₂,
}
use ridingthecode.Common.Text.{Bytes}
use ridingthecode.Chat.Stream.{Stream, rcv_variable}
use ridingthecode.Chat.Stream.Receive.{bytes_of, Flows, Taken, rcv_variable-Taken}
use ridingthecode.Chat.Packets.{write_fields, rcv_fields}

abbrev pub total : List ℕ → ℕ
total [] = 0
total (n ∷ ns) = n + total ns

pub bytes_of-write_fields :
    (ns : List ℕ) (packet : Bytes) → bytes_of (write_fields ns packet) ≡ take (total ns) packet
unfolding write_fields
bytes_of-write_fields [] packet = refl
bytes_of-write_fields (n ∷ ns) packet =
    ap (λ l. take n packet ++ l) (bytes_of-write_fields ns (drop n packet))
    ∙ sym (take-add n (total ns) packet)

-- Reading the fields takes their total size from the stream.
pub rcv_fields-Taken :
    (ns : List ℕ) (packet : Bytes) (s : Stream)
    → length packet ≡ total ns
    → Flows s
    → total ns ≤ length (bytes_of s)
    → Taken (total ns) s (rcv_fields ns packet s).0 (rcv_fields ns packet s).1
unfolding rcv_fields
rcv_fields-Taken [] [] s e h k = record { front = refl; behind = refl; flows = h }
rcv_fields-Taken [] (x ∷ xs) s e h k = absurd (omega arith)
rcv_fields-Taken (n ∷ ns) packet s e h k =
    let t =
      rcv_variable-Taken (take n packet) n s (omega (arith, length-take n packet)) h
        (omega arith) in
    let u =
      rcv_fields-Taken ns (drop n packet) (rcv_variable (take n packet) n s).1
        (omega (arith, length-drop n packet)) t.flows
        (omega (arith, ap length t.behind, length-drop n (bytes_of s))) in
    record {
      front =
          ap₂ ◌++◌ t.front (u.front ∙ ap (take (total ns)) t.behind)
          ∙ sym (take-add n (total ns) (bytes_of s));
      behind = u.behind ∙ ap (drop (total ns)) t.behind ∙ sym (drop-add n (total ns) (bytes_of s));
      flows = u.flows;
    }
