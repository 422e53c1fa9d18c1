-- ===== src/Chat/Server/First.antt =====
-- Which channel a name finds in the rows of the router: the search of add_client, channel_close and
-- display_users in LinuxAssign3/server/src/ServerSystemRouter.cpp.
use ridingthecode.Common.{
  ℕ, zero, suc, ◌+◌, ◌≤◌, ◌<◌, ◌≡◌, ◌≢◌, inl, inr, refl, ap, ◌∙◌, List, false, arith, Option, none,
  some, ◌==◌, Bool-cases, ==→eq,
}
use ridingthecode.Common.Text.{Bytes, same_bytes, same_bytes_iff}
use ridingthecode.Chat.Channel.{row_text}
use ridingthecode.Chat.Server.{find_channel}

-- The first row from `i` on, of `k`, that is the name; or none of them is.
abbrev pub First : List Bytes → Bytes → ℕ → ℕ → Option ℕ → Type 0
First names name k i none = (m : ℕ) → i ≤ m → m < i + k → row_text names m ≢ name
First names name k i (some j) =
    (i ≤ j)
    × (j < i + k)
    × (row_text names j ≡ name)
    × ((m : ℕ) → i ≤ m → m < j → row_text names m ≢ name)

-- one row more
First-suc :
    (names : List Bytes) (name : Bytes) (k i : ℕ) (o : Option ℕ)
    → row_text names i ≢ name
    → First names name k (i + 1) o
    → First names name (suc k) i o
First-suc names name k i none d h = λ m l p e. elim (Bool-cases (i == m)) [
  | inl q ↦ d (ap (row_text names) (==→eq i m q) ∙ e)
  | inr q ↦ h m (ground arith) (omega arith) e
]
First-suc names name k i (some j) d h = (
  omega (arith, h.0),
  omega (arith, h.1),
  h.2,
  λ m l p e. elim (Bool-cases (i == m)) [
    | inl q ↦ d (ap (row_text names) (==→eq i m q) ∙ e)
    | inr q ↦ h.3 m (ground arith) p e
  ],
)

pub find_channel-First :
    (names : List Bytes) (name : Bytes) (k i : ℕ)
    → First names name k i (find_channel names name k i)
unfolding find_channel
find_channel-First names name zero i = λ m l p. absurd (omega arith)
find_channel-First names name (suc k) i = elim (Bool-cases (same_bytes (row_text names i) name)) [
  | inl e ↦ rw e (
    omega arith,
    omega arith,
    (same_bytes_iff (row_text names i) name).0 e,
    λ m l p. absurd (omega arith),
  )
  | inr e ↦ rw e (
      First-suc names name k i (find_channel names name k (i + 1)) (λ q. differ e q)
        (find_channel-First names name k (i + 1)))
]
  where
    differ : same_bytes (row_text names i) name ≡ false → row_text names i ≢ name
    differ e q = ground (arith, same_bytes_iff (row_text names i) name)

-- There is one answer.
pub First-unique :
    (names : List Bytes) (name : Bytes) (k i : ℕ) (o o' : Option ℕ)
    → First names name k i o
    → First names name k i o'
    → o ≡ o'
First-unique names name k i none none h h' = refl
First-unique names name k i none (some j) h h' = absurd (h j h'.0 h'.1 h'.2)
First-unique names name k i (some j) none h h' = absurd (h' j h.0 h.1 h.2)
First-unique names name k i (some j) (some j') h h' = ap some (same j j' order)
  where
    order : ¬ (j < j') × ¬ (j' < j)
    order = (λ l. h'.3 j h.0 l h.2, λ l. h.3 j' h'.0 l h'.2)

    same : (a b : ℕ) → ¬ (a < b) × ¬ (b < a) → a ≡ b
    same a b o = ground arith
