-- ===== src/Shaper/Menu/Cases.antt =====
-- A command selects one colour, shape or mode that there is, or changes no selection.
use ridingthecode.Common.{
  ℕ, ◌+◌, ◌-◌, ◌<◌, Bool, true, false, ◌||◌, [], ◌∷◌, ◌==◌, if◌then◌else◌, arith, ◌≡◌, refl,
}
use ridingthecode.Shaper.Ids
use ridingthecode.Shaper.State.{Program}
use ridingthecode.Shaper.Menu.{
  one_of, invalidate, check_mode, check_pen, check_bg, check_shape, change_main, change_dbox,
  is_check_box,
}

if_intro {ℓ} :
    {A : Type 0} (P : A → Type ℓ) (b : Bool) {x y : A}
    → (b ≡ true → P x)
    → (b ≡ false → P y)
    → P (if b then x else y)
if_intro P true h k = h refl
if_intro P false h k = k refl

-- `n` places from the first of a row of numbers.
row_4 :
    (id first : ℕ)
    → one_of id (first ∷ (first + 1) ∷ (first + 2) ∷ (first + 3) ∷ []) ≡ true
    → (id - first < 4) × (id ≡ first + (id - first))
row_4 id first h = ground arith

row_5 :
    (id first : ℕ)
    → one_of id (first ∷ (first + 1) ∷ (first + 2) ∷ (first + 3) ∷ (first + 4) ∷ []) ≡ true
    → (id - first < 5) × (id ≡ first + (id - first))
row_5 id first h = ground arith

row_2 :
    (id first : ℕ)
    → one_of id (first ∷ (first + 1) ∷ []) ≡ true
    → (id - first < 2) × (id ≡ first + (id - first))
row_2 id first h = ground arith

or_false : {a b : Bool} → a ≡ false → b ≡ false → (a || b) ≡ false
or_false e h = rw (e, h) refl

module _ (P : Program → Type 0) (p : Program) (id : ℕ) where
  pub change_dbox-cases :
      ((n : ℕ) → n < 4 → id ≡ Ids.default_mode + n → P (check_mode n p))
      → ((n : ℕ) → n < 5 → id ≡ Ids.default_color_pen + n → P (check_pen n p))
      → ((n : ℕ) → n < 5 → id ≡ Ids.default_color_bg + n → P (invalidate (check_bg n p)))
      → ((n : ℕ) → n < 2 → id ≡ Ids.default_shape + n → P (check_shape n p))
      → (is_check_box id ≡ false → P p)
      → P (change_dbox id p)
  unfolding change_dbox is_check_box
  change_dbox-cases mode pen bg shape same =
      if_intro P _ (λ h. mode _ (row_4 id Ids.default_mode h).0 (row_4 id Ids.default_mode h).1)
        (λ e₁.
          if_intro P _
            (λ h. pen _ (row_5 id Ids.default_color_pen h).0 (row_5 id Ids.default_color_pen h).1)
            (λ e₂.
              if_intro P _
                (λ h. bg _ (row_5 id Ids.default_color_bg h).0 (row_5 id Ids.default_color_bg h).1)
                (λ e₃.
                  if_intro P _
                    (λ h. shape _ (row_2 id Ids.default_shape h).0 (row_2 id Ids.default_shape h).1)
                    (λ e₄. same (or_false e₁ (or_false e₂ (or_false e₃ e₄)))))))

  pub change_main-cases :
      ((n : ℕ) → n < 4 → P (check_mode n p))
      → ((n : ℕ) → n < 5 → P (check_pen n p))
      → ((n : ℕ) → n < 5 → P (invalidate (check_bg n p)))
      → ((n : ℕ) → n < 2 → P (check_shape n p))
      → P p
      → P (record p { has_quit = true })
      → P (change_main id p).0
  unfolding change_main
  change_main-cases mode pen bg shape same quit =
      if_intro AtFirst _ (λ h. mode _ (row_4 id Ids.default_menu_mode h).0)
        (λ _.
          if_intro AtFirst _ (λ h. pen _ (row_5 id Ids.default_menu_pen h).0)
            (λ _.
              if_intro AtFirst _ (λ h. bg _ (row_5 id Ids.default_menu_bg h).0)
                (λ _.
                  if_intro AtFirst _ (λ h. shape _ (row_2 id Ids.default_menu_shape h).0)
                    (λ _.
                      if_intro AtFirst (id == Ids.idm_about) {x = (p, true)} {y = leave} (λ _. same)
                        (λ _.
                          if_intro AtFirst (id == Ids.idm_exit) {x = (quitted, true)}
                            {y = (p, false)} (λ _. quit) (λ _. same))))))
    where
      AtFirst : Program × Bool → Type 0
      AtFirst r = P r.0

      quitted : Program
      quitted = record p { has_quit = true }

      leave : Program × Bool
      leave = if id == Ids.idm_exit then (quitted, true) else (p, false)
