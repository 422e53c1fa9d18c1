-- ===== src/Shaper/Selecting.antt =====
-- What leaves the list of shapes as it is: the selections of menu.cpp, and the mini party.
use ridingthecode.Common.{ℕ, zero, suc, ◌+◌, ◌<◌, List, [], arith, ◌≡◌, refl, ap, sym, ◌∙◌, subst}
use ridingthecode.Common.Fault.{ok, ok->>=}
use ridingthecode.Shaper.State.{DrawStr, ShapeCopy, Gdi, Program, random_index}
use ridingthecode.Shaper.Menu.{
  invalidate, check_mode, check_pen, check_bg, check_shape, change_main, change_dbox,
}
use ridingthecode.Shaper.Menu.Cases.{change_dbox-cases, change_main-cases}
use ridingthecode.Shaper.Drawing.{mini_party_from, mini_party}
use ridingthecode.Shaper.Canvas.{get_colors-lt}
use ridingthecode.Shaper.Refinement.{Shows, OnSome}

-- A change of what the list and the selections do not depend on.
pub frame :
    {p : Program} {cs : List ShapeCopy} (q : Program)
    → Shows p cs
    → q.dstr ≡ p.dstr
    → q.clipboard ≡ p.clipboard
    → Shows q cs
frame {p} {cs} q s d c = record {
  is_columns = ap (λ (d : DrawStr). d.shp) d ∙ s.is_columns;
  in_range = s.in_range;
  pen = subst (λ (d : DrawStr). d.current_pen < 5) (sym d) s.pen;
  bg = subst (λ (d : DrawStr). d.current_bg < 5) (sym d) s.bg;
  shape = subst (λ (d : DrawStr). d.current_shape < 2) (sym d) s.shape;
  mode = subst (λ (d : DrawStr). d.mode < 4) (sym d) s.mode;
  copied = subst OnSome (sym c) s.copied;
}

module _ {p : Program} {cs : List ShapeCopy} (s : Shows p cs) where
  check_pen-Shows : (n : ℕ) → n < 5 → Shows (check_pen n p) cs
  unfolding check_pen
  check_pen-Shows n h = record {
    is_columns = s.is_columns;
    in_range = s.in_range;
    pen = h;
    bg = s.bg;
    shape = s.shape;
    mode = s.mode;
    copied = s.copied;
  }

  check_bg-Shows : (n : ℕ) → n < 5 → Shows (invalidate (check_bg n p)) cs
  unfolding check_bg
  check_bg-Shows n h = record {
    is_columns = s.is_columns;
    in_range = s.in_range;
    pen = s.pen;
    bg = h;
    shape = s.shape;
    mode = s.mode;
    copied = s.copied;
  }

  check_shape-Shows : (n : ℕ) → n < 2 → Shows (check_shape n p) cs
  unfolding check_shape
  check_shape-Shows n h = record {
    is_columns = s.is_columns;
    in_range = s.in_range;
    pen = s.pen;
    bg = s.bg;
    shape = h;
    mode = s.mode;
    copied = s.copied;
  }

  check_mode-Shows : (n : ℕ) → n < 4 → Shows (check_mode n p) cs
  unfolding check_mode
  check_mode-Shows n h = record {
    is_columns = s.is_columns;
    in_range = s.in_range;
    pen = s.pen;
    bg = s.bg;
    shape = s.shape;
    mode = h;
    copied = s.copied;
  }

  pub change_dbox-Shows : (id : ℕ) → Shows (change_dbox id p) cs
  change_dbox-Shows id =
      change_dbox-cases (λ q. Shows q cs) p id (λ n h _. check_mode-Shows n h)
        (λ n h _. check_pen-Shows n h) (λ n h _. check_bg-Shows n h)
        (λ n h _. check_shape-Shows n h) (λ _. s)

  pub change_main-Shows : (id : ℕ) → Shows (change_main id p).0 cs
  change_main-Shows id =
      change_main-cases (λ q. Shows q cs) p id check_mode-Shows check_pen-Shows check_bg-Shows
        check_shape-Shows s (frame _ s refl refl)

mini_party_from-ok :
    (rand : ℕ → ℕ)
    → ((k : ℕ) → rand k < 32768)
    → (count n : ℕ) → (calls : List Gdi) × (mini_party_from rand count n ≡ ok calls)
unfolding mini_party_from
mini_party_from-ok rand r count zero = ([], refl)
mini_party_from-ok rand r count (suc n) = (
  _,
  ok->>= _ (get_colors-lt (random_index (rand count)) (omega (arith, r count)))
      ∙ ok->>= _ (mini_party_from-ok rand r (count + 1) n).1,
)

pub mini_party-ok :
    (rand : ℕ → ℕ) {p : Program} {cs : List ShapeCopy}
    → ((k : ℕ) → rand k < 32768)
    → Shows p cs
    → (calls : List Gdi) × (mini_party rand p ≡ ok calls)
unfolding mini_party
mini_party-ok rand {p} r s = (
  _,
  ok->>= _ (mini_party_from-ok rand r 0 100).1 ∙ ok->>= _ (get_colors-lt p.dstr.current_bg s.bg),
)
