-- ===== src/Chat/Channel/Names.antt =====
-- The names of a channel's clients: no two members share one, unless a name fills its field.
use ridingthecode.Common.{
  ℕ, zero, suc, ◌+◌, ◌<◌, ◌≡◌, ◌≢◌, ◌⊎◌, refl, ap, ◌∙◌, List, [], ◌∷◌, ◌++◌, arith, length, drop,
  get_or, set, replicate, get_or-set, ◌==◌, if◌then◌else◌,
}
use ridingthecode.Common.Text.{Bytes, before, c_string}
use ridingthecode.Chat.Packets.{max_user_name}
use ridingthecode.Chat.Channel.{Channel, process_client_quit, row_text, rows}
use ridingthecode.Chat.Channel.Rows.{IsChannel}

-- A NUL ends the name inside its field.
abbrev pub HasNul : Bytes → Type 0
HasNul row = length (c_string row) < length row

pub c_string-append : (row rest : Bytes) → HasNul row → c_string (row ++ rest) ≡ c_string row
unfolding before
c_string-append [] rest h = absurd (omega arith)
c_string-append (x ∷ xs) rest h = ground (arith, c_string-append xs rest)

suc-add_one : (i : ℕ) → suc (i + 1) ≡ suc i + 1
suc-add_one i = omega arith

rows-drop :
    (names : List Bytes) (i : ℕ)
    → i < length names
    → rows (drop i names) ≡ get_or names i [] ++ rows (drop (i + 1) names)
rows-drop [] i h = absurd (omega arith)
rows-drop (x ∷ xs) zero h = refl
rows-drop (x ∷ xs) (suc i) h =
    rows-drop xs i (omega arith)
    ∙ ap (λ k. get_or xs i [] ++ rows (drop k (x ∷ xs))) (suc-add_one i)

pub row_text-HasNul :
    (names : List Bytes) (i : ℕ)
    → i < length names
    → HasNul (get_or names i [])
    → row_text names i ≡ c_string (get_or names i [])
row_text-HasNul names i h k =
    ap c_string (rows-drop names i h)
    ∙ c_string-append (get_or names i []) (rows (drop (i + 1) names)) k

abbrev pub member_name : Channel → ℕ → Bytes
member_name ch i = c_string (get_or ch.client_names i [])

-- Each row in use ends in its field, and two of them have different names, but for rows left empty.
pub record DistinctNames (ch : Channel) : Type 0 where
  pub ended : (i : ℕ) → i < ch.current_clients → HasNul (get_or ch.client_names i [])
  pub distinct :
      (i j : ℕ)
      → i < j
      → j < ch.current_clients
      → (member_name ch i ≡ []) ⊎ (member_name ch i ≢ member_name ch j)

-- names after one row is set
pub name-set :
    (names : List Bytes) (k i : ℕ) (v : Bytes)
    → k < length names
    → get_or (set names k v) i [] ≡ (if k == i then v else get_or names i [])
name-set names k i v h = get_or-set names k i v [] h

pub no_name : c_string (replicate max_user_name 0) ≡ []
unfolding before
no_name = refl

-- A client that quits leaves an empty row.
pub process_client_quit-DistinctNames :
    (c : ℕ) (ch : Channel)
    → IsChannel ch
    → c < ch.current_clients
    → DistinctNames ch
    → DistinctNames (process_client_quit c ch).0
unfolding process_client_quit
process_client_quit-DistinctNames c ch v h d = record {
  ended = λ i l. ground (arith, name-set ch.client_names c i empty inside, d.ended i, nul_first);
  distinct = λ i j l m. ground (
    arith,
    name-set ch.client_names c i empty inside,
    name-set ch.client_names c j empty inside,
    d.distinct i j,
    no_name,
  );
}
  where
    empty : Bytes
    empty = replicate max_user_name 0

    inside : c < length ch.client_names
    inside = omega (arith, v.names, v.in_use)

    nul_first : HasNul (replicate max_user_name 0)
    nul_first = omega (arith, ap length no_name)
