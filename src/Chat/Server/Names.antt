-- ===== src/Chat/Server/Names.antt =====
-- The names of the server's channels: which channel a name finds, after a channel is made or closed.
use ridingthecode.Common.{
  ℕ, ◌+◌, ◌≤◌, ◌<◌, ◌≡◌, ◌≢◌, ◌⊎◌, inl, refl, sym, ap, ◌∙◌, List, [], Bool, true, false, arith,
  Option, none, some, length, get_or, set, replicate, ◌==◌, if◌then◌else◌, length-set,
}
use ridingthecode.Common.Int.{ℤ}
use ridingthecode.Common.Text.{Bytes, same_bytes, same_bytes_iff, same_bytes→eq, c_string}
use ridingthecode.Chat.Packets.{max_channels, max_channel_name}
use ridingthecode.Chat.Channel.{row_text}
use ridingthecode.Chat.Channel.Names.{HasNul, row_text-HasNul, name-set, no_name}
use ridingthecode.Chat.Server.{Router, opened, close_found, channel_of, close_named}
use ridingthecode.Chat.Server.First.{First, find_channel-First, First-unique}

-- the first answer that there is
abbrev pub or_else : Option ℕ → Option ℕ → Option ℕ
or_else none o = o
or_else (some i) o = some i

-- The rows of the opened channels are there, and each name ends in its row.
pub record IsRouter (r : Router) : Type 0 where
  pub names : length r.channel_name_list ≡ max_channels
  pub in_use : r.open_channels ≤ max_channels
  pub ended : (i : ℕ) → i < r.open_channels → HasNul (get_or r.channel_name_list i [])

-- the names after row `k` is set to a name that ends in it, where those of the first `n` rows do
module _ (names : List Bytes) (n k : ℕ) (v : Bytes)
    (ended : (j : ℕ) → j < n → HasNul (get_or names j [])) (nul : HasNul v)
    (inside : k < length names) where
  set-HasNul : (i : ℕ) → (i < n) ⊎ (k ≡ i) → HasNul (get_or (set names k v) i [])
  set-HasNul i l = ground (arith, name-set names k i v inside, nul, ended i)

  row_text-set :
      (i : ℕ)
      → i < length names
      → (i < n) ⊎ (k ≡ i)
      → row_text (set names k v) i ≡ (if k == i then c_string v else row_text names i)
  row_text-set i h l =
      row_text-HasNul (set names k v) i (omega (arith, length-set names k v)) (set-HasNul i l)
      ∙ ap c_string (name-set names k i v inside)
      ∙ either (k == i) refl
    where
      either :
          (b : Bool)
          → (k == i) ≡ b
          → c_string (if b then v else get_or names i [])
            ≡ (if b then c_string v else row_text names i)
      either true e = refl
      either false e = sym (row_text-HasNul names i h (ended i (other l e)))
        where
          other : (i < n) ⊎ (k ≡ i) → (k == i) ≡ false → i < n
          other l e = ground arith

-- what the names find after a channel is made
module _ (name : Bytes) (r : Router) (v : IsRouter r) (nul : HasNul name)
    (room : r.open_channels < max_channels) where
  inside : r.open_channels < length r.channel_name_list
  inside = omega (arith, v.names, room)

  names' : List Bytes
  names' = set r.channel_name_list r.open_channels name

  new_text :
      (i : ℕ)
      → i < r.open_channels + 1
      → row_text names' i
        ≡ (if r.open_channels == i then c_string name else row_text r.channel_name_list i)
  unfolding names'
  new_text i l =
      row_text-set r.channel_name_list r.open_channels r.open_channels name v.ended nul inside i
        (omega (arith, inside)) (ground arith)

  answer : Bytes → Option ℕ → Option ℕ
  answer m o = or_else o (if same_bytes (c_string name) m then some r.open_channels else none)

  answer-First :
      (m : Bytes) (o : Option ℕ)
      → First r.channel_name_list m r.open_channels 0 o
      → First names' m (r.open_channels + 1) 0 (answer m o)
  unfolding answer
  answer-First m (some i) h = (
    omega arith,
    omega (arith, h.1),
    ground (arith, new_text i, h.1, h.2),
    λ j l p. ground (arith, new_text j, h.1, h.3 j),
  )
  answer-First m none h = by_name (same_bytes (c_string name) m) refl
    where
      by_name :
          (b : Bool)
          → same_bytes (c_string name) m ≡ b
          → First names' m (r.open_channels + 1) 0 (if b then some r.open_channels else none)
      by_name true e = (
        omega arith,
        omega arith,
        ground (arith, new_text r.open_channels, same_bytes_iff (c_string name) m),
        λ j l p. ground (arith, new_text j, h j),
      )
      by_name false e = λ j l p. ground (arith, new_text j, h j, same_bytes_iff (c_string name) m)

  pub opened-IsRouter : (read_end : ℤ) → IsRouter (opened name read_end r)
  opened-IsRouter read_end = record {
    names = length-set r.channel_name_list r.open_channels name ∙ v.names;
    in_use = omega (arith, room);
    ended = λ i l.
        set-HasNul r.channel_name_list r.open_channels r.open_channels name v.ended nul inside i
          (ground arith);
  }

-- Once a channel is made under a name that ends in its row, this name finds it, unless it found another
-- before, and the other names find what they found.
pub opened-channel_of :
    (name : Bytes) (read_end : ℤ) (r : Router)
    → IsRouter r
    → HasNul name
    → r.open_channels < max_channels
    → (m : Bytes)
    → channel_of (opened name read_end r) m
      ≡ or_else
          (channel_of r m)
          (if same_bytes (c_string name) m then some r.open_channels else none)
unfolding answer names'
opened-channel_of name read_end r v nul room m =
    First-unique (names' name r v nul room) m (r.open_channels + 1) 0 _ _
      (find_channel-First (names' name r v nul room) m (r.open_channels + 1) 0)
      (answer-First name r v nul room m (channel_of r m)
        (find_channel-First r.channel_name_list m r.open_channels 0))

-- no two channels share a name, but the closed ones, whose rows are empty
abbrev pub DistinctRows : Router → Type 0
DistinctRows r =
    (i j : ℕ)
    → i < j
    → j < r.open_channels
    → row_text r.channel_name_list i ≡ row_text r.channel_name_list j
    → row_text r.channel_name_list i ≡ []

-- what the names find after channel `i` is closed
module _ (r : Router) (v : IsRouter r) (i : ℕ) (h : i < r.open_channels) where
  closed_names : List Bytes
  closed_names = set r.channel_name_list i (replicate max_channel_name 0)

  closed_text :
      (j : ℕ)
      → j < r.open_channels
      → row_text closed_names j ≡ (if i == j then [] else row_text r.channel_name_list j)
  unfolding closed_names
  closed_text j l =
      row_text-set r.channel_name_list r.open_channels i (replicate max_channel_name 0) v.ended
        (omega (arith, ap length no_name)) (omega (arith, v.names, v.in_use)) j
        (omega (arith, v.names, v.in_use)) (inl l)
      ∙ ap (λ t. if i == j then t else row_text r.channel_name_list j) no_name

  remaining :
      (name m : Bytes)
      → DistinctRows r
      → m ≢ []
      → row_text r.channel_name_list i ≡ name
      → (b : Bool) → same_bytes name m ≡ b
      → (o : Option ℕ) → First r.channel_name_list m r.open_channels 0 o
      → First closed_names m r.open_channels 0 (if b then none else o)
  remaining name m distinct real here true e o g =
      λ j l p q. ground (arith, closed_text j, same_bytes→eq name m e, distinct i j, distinct j i)
  remaining name m distinct real here false e none g = λ j l p q. ground (arith, closed_text j, g j)
  remaining name m distinct real here false e (some j) g = (
    omega arith,
    omega (arith, g.1),
    ground (arith, closed_text j, g.1, g.2, differ),
    λ k l p. ground (arith, closed_text k, g.1, g.3 k),
  )
    where
      differ : name ≢ m
      differ q = ground (arith, same_bytes_iff name m)

-- Once a channel is closed, its name finds none, and every other name but the empty one finds what
-- it found. The names in the router's rows end there, and no two that are not empty are the same.
pub close_named-channel_of :
    (name m : Bytes) (r : Router)
    → IsRouter r
    → DistinctRows r
    → m ≢ []
    → channel_of (close_named name r).0 m ≡ (if same_bytes name m then none else channel_of r m)
unfolding close_named close_found closed_names
close_named-channel_of name m r v distinct real =
    go (channel_of r name) (find_channel-First r.channel_name_list name r.open_channels 0)
  where
    go :
        (o : Option ℕ)
        → First r.channel_name_list name r.open_channels 0 o
        → channel_of (close_found o r).0 m ≡ (if same_bytes name m then none else channel_of r m)
    go none h = missing (same_bytes name m) refl
      where
        missing :
            (b : Bool)
            → same_bytes name m ≡ b
            → channel_of r m ≡ (if b then none else channel_of r m)
        missing true e =
            First-unique r.channel_name_list m r.open_channels 0 (channel_of r m) none
              (find_channel-First r.channel_name_list m r.open_channels 0)
              (λ j l p q. h j l p (q ∙ sym (same_bytes→eq name m e)))
        missing false e = refl
    go (some i) h = found (omega (arith, h.1))
      where
        found :
            i < r.open_channels
            → channel_of (close_found (some i) r).0 m
              ≡ (if same_bytes name m then none else channel_of r m)
        found l =
            First-unique (closed_names r v i l) m r.open_channels 0 _ _
              (find_channel-First (closed_names r v i l) m r.open_channels 0)
              (remaining r v i l name m distinct real h.2 (same_bytes name m) refl (channel_of r m)
                (find_channel-First r.channel_name_list m r.open_channels 0))
