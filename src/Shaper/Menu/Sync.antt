-- ===== src/Shaper/Menu/Sync.antt =====
-- The check marks of the menu and of the paint box: the current pen, background, shape and mode, and no
-- other.
use ridingthecode.Common.{ℕ, ◌+◌, ◌<◌, Bool, ◌||◌, ◌==◌, arith, ◌≡◌, ◌≢◌, ap, ◌∙◌, sym}
use ridingthecode.Shaper.Ids
use ridingthecode.Shaper.State.{DrawStr, Program}
use ridingthecode.Shaper.Menu.{check_mode, check_pen, check_bg, check_shape}

-- The selections are those of colours, shapes and modes that there are.
pub record HasSelections (d : DrawStr) : Type 0 where
  pub pen : d.current_pen < 5
  pub bg : d.current_bg < 5
  pub shape : d.current_shape < 2
  pub mode : d.mode < 4

unfoldable pub menu_mark : DrawStr → ℕ → Bool
menu_mark d j =
    j == Ids.default_menu_pen + d.current_pen
    || (j == Ids.default_menu_bg + d.current_bg
        || (j == Ids.default_menu_shape + d.current_shape || j == Ids.default_menu_mode + d.mode))

unfoldable pub dialog_mark : DrawStr → ℕ → Bool
dialog_mark d j =
    j == Ids.default_color_pen + d.current_pen
    || (j == Ids.default_color_bg + d.current_bg
        || (j == Ids.default_shape + d.current_shape || j == Ids.default_mode + d.mode))

-- In sync, but for one control of the paint box.
pub record SyncBut (k : ℕ) (p : Program) : Type 0 where
  pub of_menu : (j : ℕ) → p.menu j ≡ menu_mark p.dstr j
  pub of_dialog : (j : ℕ) → j ≢ k → p.dialog j ≡ dialog_mark p.dstr j

pub record InSync (p : Program) : Type 0 where
  pub of_menu : (j : ℕ) → p.menu j ≡ menu_mark p.dstr j
  pub of_dialog : (j : ℕ) → p.dialog j ≡ dialog_mark p.dstr j

module _ {p : Program} (n : ℕ) (r : HasSelections p.dstr) where
  pub check_pen-InSync : n < 5 → SyncBut (Ids.default_color_pen + n) p → InSync (check_pen n p)
  unfolding check_pen menu_mark dialog_mark
  check_pen-InSync h s = record {
    of_menu = λ j. ground (arith, r.bg, r.pen, r.shape, r.mode, s.of_menu j);
    of_dialog = λ j. ground (arith, r.bg, r.pen, r.shape, r.mode, s.of_dialog j);
  }

  pub check_bg-InSync : n < 5 → SyncBut (Ids.default_color_bg + n) p → InSync (check_bg n p)
  unfolding check_bg menu_mark dialog_mark
  check_bg-InSync h s = record {
    of_menu = λ j. ground (arith, r.bg, r.pen, r.shape, r.mode, s.of_menu j);
    of_dialog = λ j. ground (arith, r.bg, r.pen, r.shape, r.mode, s.of_dialog j);
  }

  pub check_shape-InSync : n < 2 → SyncBut (Ids.default_shape + n) p → InSync (check_shape n p)
  unfolding check_shape menu_mark dialog_mark
  check_shape-InSync h s = record {
    of_menu = λ j. ground (arith, r.bg, r.pen, r.shape, r.mode, s.of_menu j);
    of_dialog = λ j. ground (arith, r.bg, r.pen, r.shape, r.mode, s.of_dialog j);
  }

  pub check_mode-InSync : n < 4 → SyncBut (Ids.default_mode + n) p → InSync (check_mode n p)
  unfolding check_mode menu_mark dialog_mark
  check_mode-InSync h s = record {
    of_menu = λ j. ground (arith, r.bg, r.pen, r.shape, r.mode, s.of_menu j);
    of_dialog = λ j. ground (arith, r.bg, r.pen, r.shape, r.mode, s.of_dialog j);
  }

-- What does not touch the marks and the selections.
pub InSync-frame :
    {p : Program} (q : Program)
    → InSync p
    → q.menu ≡ p.menu
    → q.dialog ≡ p.dialog
    → ((j : ℕ) → menu_mark q.dstr j ≡ menu_mark p.dstr j)
    → ((j : ℕ) → dialog_mark q.dstr j ≡ dialog_mark p.dstr j)
    → InSync q
InSync-frame q s m d em ed = record {
  of_menu = λ j. ap (λ f. f j) m ∙ s.of_menu j ∙ sym (em j);
  of_dialog = λ j. ap (λ f. f j) d ∙ s.of_dialog j ∙ sym (ed j);
}

pub InSync-SyncBut : {p : Program} (k : ℕ) → InSync p → SyncBut k p
InSync-SyncBut k s = record { of_menu = s.of_menu; of_dialog = λ j _. s.of_dialog j }
