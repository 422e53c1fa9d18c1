-- ===== src/Router/Ring/Window.antt =====
-- The bytes that lie in a ring, oldest first, and how block copies change them.
use ridingthecode.Common.{
  ℕ, ◌+◌, ◌-◌, ◌≤◌, ◌<◌, ◌≡◌, ap, ◌∙◌, List, ◌++◌, arith, length, get_or, drop, tabulate,
  length-append, length-take, length-drop, length-tabulate, get_or-take, get_or-drop, get_or-append,
  get_or-tabulate, list_ext, copy_to, get_or-copy_to, length-copy_to,
}
use ridingthecode.Router.Ring.{slice}
use ridingthecode.Router.Ring.Bounds.{wrapped}

-- the `n` bytes of `cells` from index `b` on, going round at `cap`
unfoldable pub window : List ℕ → ℕ → ℕ → ℕ → List ℕ
window cells cap b n = tabulate 0 n (λ i. get_or cells (wrapped cap (b + i)) 0)

pub length-window : (cells : List ℕ) (cap b n : ℕ) → length (window cells cap b n) ≡ n
unfolding window
length-window cells cap b n = length-tabulate 0 n _

get_or-window :
    (cells : List ℕ) (cap b n i : ℕ)
    → i < n
    → get_or (window cells cap b n) i 0 ≡ get_or cells (wrapped cap (b + i)) 0
unfolding window
get_or-window cells cap b n i h =
    get_or-tabulate 0 n (λ i. get_or cells (wrapped cap (b + i)) 0) i 0 h
    ∙ ap (λ k. get_or cells (wrapped cap (b + k)) 0) (omega arith)

-- A window in two parts.
pub window-split :
    (cells : List ℕ) (cap b n m : ℕ)
    → b < cap
    → n + m ≤ cap
    → window cells cap b (n + m) ≡ window cells cap b n ++ window cells cap (wrapped cap (b + n)) m
window-split cells cap b n m hb h =
    list_ext _ _ 0
      (omega (
        arith,
        length-window cells cap b (n + m),
        length-append (window cells cap b n) (window cells cap (wrapped cap (b + n)) m),
        length-window cells cap b n,
        length-window cells cap (wrapped cap (b + n)) m,
      ))
      λ i p. ground (
        arith,
        length-window cells cap b (n + m),
        length-window cells cap b n,
        get_or-window cells cap b (n + m) i,
        get_or-append (window cells cap b n) (window cells cap (wrapped cap (b + n)) m) i 0,
        get_or-window cells cap b n i,
        get_or-window cells cap (wrapped cap (b + n)) m (i - n),
      )

-- A window that does not go round is a block of the cells.
pub window-slice :
    (cells : List ℕ) (cap b n : ℕ)
    → cap ≤ length cells
    → b < cap
    → b + n ≤ cap
    → window cells cap b n ≡ slice cells b n
window-slice cells cap b n hc hb h =
    list_ext _ _ 0
      (omega
        (arith, length-window cells cap b n, length-take n (drop b cells), length-drop b cells))
      λ i p. ground (
        arith,
        length-window cells cap b n,
        get_or-window cells cap b n i,
        get_or-take n i (drop b cells) 0,
        get_or-drop b i cells 0,
      )

-- A block copied just behind a window extends it by that block.
pub window-copy_to :
    (cells : List ℕ) (cap b n e m : ℕ) (xs : List ℕ)
    → cap ≤ length cells
    → b < cap
    → e ≡ wrapped cap (b + n)
    → m ≡ n + length xs
    → m ≤ cap
    → e + length xs ≤ cap
    → window (copy_to cells e xs) cap b m ≡ window cells cap b n ++ xs
window-copy_to cells cap b n e m xs hc hb he hm h k =
    list_ext _ _ 0
      (omega (
        arith,
        length-window (copy_to cells e xs) cap b m,
        length-append (window cells cap b n) xs,
        length-window cells cap b n,
      ))
      λ i p. ground (
        arith,
        length-window (copy_to cells e xs) cap b m,
        length-window cells cap b n,
        get_or-window (copy_to cells e xs) cap b m i,
        get_or-append (window cells cap b n) xs i 0,
        get_or-window cells cap b n i,
        get_or-copy_to cells e xs (wrapped cap (b + i)) 0,
      )

-- So do two blocks, the first up to the end of the cells and the second from their start.
pub window-copy_round :
    (cells : List ℕ) (cap b n e m : ℕ) (xs ys : List ℕ)
    → cap ≤ length cells
    → b < cap
    → e ≡ wrapped cap (b + n)
    → e + length xs ≡ cap
    → m ≡ n + length xs + length ys
    → m ≤ cap
    → window (copy_to (copy_to cells e xs) 0 ys) cap b m ≡ window cells cap b n ++ xs ++ ys
window-copy_round cells cap b n e m xs ys hc hb he hx hm h = ground (
  arith,
  length-copy_to cells e xs,
  window-copy_to (copy_to cells e xs) cap b (n + length xs) 0 m ys,
  window-copy_to cells cap b n e (n + length xs) xs,
)
