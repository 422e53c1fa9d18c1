-- ===== src/Serial/Cursor.antt =====
-- Where the reading thread draws: rows of as many characters as begin inside the window.
use ridingthecode.Common.{
  ℕ, zero, suc, ◌+◌, ◌*◌, ◌≤◌, ◌<◌, List, [], ◌∷◌, ◌++◌, Option, some, true, length, map, arith,
  ◌≡◌, refl, ap, sym, ◌∙◌, subst, if_true, ap₂, inl, ◌⊎◌, inr,
}
use ridingthecode.Serial.{Terminal, win_width, exec_read, wrapped, advanced, Event, read, step, run}

-- A thread that will draw its next character in a column of a row.
pub record At (t : Terminal) (row column : ℕ) : Type 0 where
  pub is_on : t.serial_on ≡ true
  pub next_place : wrapped t.line_height (t.x, t.y) ≡ (column * t.char_width, row * t.line_height)

suc_mul : (a b : ℕ) → suc a * b ≡ a * b + b
suc_mul a b = grind arith

module _ (last : ℕ) where
  -- A row and a column are known from the number of characters before them.
  unique_place :
      (row row' column column' : ℕ)
      → column ≤ last
      → column' ≤ last
      → row * suc last + column ≡ row' * suc last + column'
      → (row ≡ row') × (column ≡ column')
  unique_place zero zero c c' h h' e = (refl, omega (arith, e))
  unique_place zero (suc r') c c' h h' e = absurd (omega (arith, suc_mul r' (suc last)))
  unique_place (suc r) zero c c' h h' e = absurd (omega (arith, suc_mul r (suc last)))
  unique_place (suc r) (suc r') c c' h h' e =
      let (p, q) =
        unique_place r r' c c' h h' (omega (arith, suc_mul r (suc last), suc_mul r' (suc last))) in
      (ap suc p, q)

-- A place inside the window stays, and one at its edge goes to the next row.
wrapped_inside : (h x y : ℕ) → x < win_width → wrapped h (x, y) ≡ (x, y)
unfolding wrapped
wrapped_inside h x y l = ground arith

wrapped_full : (h x y : ℕ) → win_width ≤ x → wrapped h (x, y) ≡ (0, y + h)
unfolding wrapped
wrapped_full h x y l = ground arith

mul_mono : (a b c : ℕ) → a ≤ b → a * c ≤ b * c
mul_mono a b c h = grind arith

-- A read stays in the row, or begins the next one.
module _ (t : Terminal) (row column last : ℕ) (got : Option ℕ) (a : At t row column)
    (inside : last * t.char_width < win_width) (full : win_width ≤ suc last * t.char_width) where
  next_at :
      wrapped t.line_height ((exec_read got t).x, (exec_read got t).y)
      ≡ wrapped t.line_height (suc column * t.char_width, row * t.line_height)
  unfolding exec_read advanced
  next_at =
      ap (λ (xy : ℕ × ℕ). wrapped t.line_height (xy.0 + t.char_width, xy.1)) a.next_place
      ∙ ap (λ x. wrapped t.line_height (x, row * t.line_height)) (sym (suc_mul column t.char_width))

  stepped :
      (r c : ℕ)
      → wrapped t.line_height (suc column * t.char_width, row * t.line_height)
        ≡ (c * t.char_width, r * t.line_height)
      → At (step (read got) t) r c
  unfolding step exec_read
  stepped r c e =
      subst (λ q. At q r c) (sym (if_true (exec_read got t) t a.is_on))
        (record { is_on = a.is_on; next_place = next_at ∙ e })

  stays : suc column ≤ last → At (step (read got) t) row (suc column)
  stays h = stepped row (suc column) (
      wrapped_inside t.line_height (suc column * t.char_width) (row * t.line_height)
        (omega (arith, mul_mono (suc column) last t.char_width h)))

  turns : column ≡ last → At (step (read got) t) (suc row) 0
  turns h = stepped (suc row) 0 (
      wrapped_full t.line_height (suc column * t.char_width) (row * t.line_height)
        (subst (λ c. win_width ≤ suc c * t.char_width) (sym h) full)
      ∙ ap₂ (λ x y. (x, y)) (omega arith) (sym (suc_mul row t.line_height)))

  same_font :
      ((step (read got) t).char_width ≡ t.char_width)
      × ((step (read got) t).line_height ≡ t.line_height)
  unfolding step exec_read
  same_font = (
    ap (λ (q : Terminal). q.char_width) (if_true (exec_read got t) t a.is_on),
    ap (λ (q : Terminal). q.line_height) (if_true (exec_read got t) t a.is_on),
  )

lt_or_eq : (a b : ℕ) → a ≤ b → (suc a ≤ b) ⊎ (a ≡ b)
lt_or_eq a b h = ground arith

at_start : (t : Terminal) → wrapped t.line_height (0, 0) ≡ (0 * t.char_width, 0 * t.line_height)
unfolding wrapped
at_start t = ap₂ (λ x y. (x, y)) (omega arith) (omega arith)

then_also :
    (t q : Terminal) {r : Terminal} {row column : ℕ}
    → q.char_width ≡ t.char_width
    → q.line_height ≡ t.line_height
    → At r row column × (r.char_width ≡ q.char_width) × (r.line_height ≡ q.line_height)
    → At r row column × (r.char_width ≡ t.char_width) × (r.line_height ≡ t.line_height)
then_also t q w l (a, w', l') = (a, w' ∙ w, l' ∙ l)

abbrev pub reads : List (Option ℕ) → List Event
reads = map (λ got. read got)

-- After any reads the next place is in the row and the column that their number gives.
reads-At :
    (gots : List (Option ℕ)) (t : Terminal) (last row column row' column' : ℕ)
    → At t row column
    → last * t.char_width < win_width
    → win_width ≤ suc last * t.char_width
    → column ≤ last
    → column' ≤ last
    → row * suc last + column + length gots ≡ row' * suc last + column'
    → At (run (reads gots) t) row' column'
      × ((run (reads gots) t).char_width ≡ t.char_width)
      × ((run (reads gots) t).line_height ≡ t.line_height)
unfolding run
reads-At [] t last row column row' column' a inside full h h' e =
    let (p, q) = unique_place last row row' column column' h h' (omega (arith, e)) in
    (subst (λ r. At t r column') p (subst (λ c. At t row c) q a), refl, refl)
reads-At (got ∷ gots) t last row column row' column' a inside full h h' e =
    let (w, l) = same_font t row column last got a inside full in
    let inside' = subst (λ n. last * n < win_width) (sym w) inside in
    let full' = subst (λ n. win_width ≤ suc last * n) (sym w) full in
    elim (lt_or_eq column last h) [
      | inl b ↦ then_also t (step (read got) t) w l (
          reads-At gots (step (read got) t) last row (suc column) row' column'
            (stays t row column last got a inside full b) inside' full' b h' (omega (arith, e)))
      | inr b ↦ then_also t (step (read got) t) w l (
          reads-At gots (step (read got) t) last (suc row) 0 row' column'
            (turns t row column last got a inside full b) inside' full' (omega arith) h'
            (omega (arith, e, suc_mul row (suc last))))
    ]

-- In a session whose thread has drawn nothing yet, with `last` the greatest number of characters whose
-- widths together are less than the width of the window, the next character after `row` times
-- `last + 1` and `column` reads, `column` at most `last`, is drawn after all that was drawn, `column`
-- widths from the left and `row` lines from the top.
pub character_place :
    (gots : List (Option ℕ)) (b : ℕ) (t : Terminal) (last row column : ℕ)
    → t.serial_on ≡ true
    → t.x ≡ 0
    → t.y ≡ 0
    → last * t.char_width < win_width
    → win_width ≤ suc last * t.char_width
    → column ≤ last
    → length gots ≡ row * suc last + column
    → (step (read (some b)) (run (reads gots) t)).shown
      ≡ (run (reads gots) t).shown ++ (column * t.char_width, row * t.line_height, b) ∷ []
unfolding step exec_read
character_place gots b t last row column on x y inside full h e =
    let first : At t 0 0 = record {
      is_on = on;
      next_place = ap₂ (λ x y. wrapped t.line_height (x, y)) x y ∙ at_start t;
    } in
    let (a, w, l) =
      reads-At gots t last 0 0 row column first inside full (omega arith) h (omega (arith, e)) in
    let q = run (reads gots) t in
    ap (λ (r : Terminal). r.shown) (if_true (exec_read (some b) q) q a.is_on)
    ∙ ap (λ (xy : ℕ × ℕ). q.shown ++ (xy.0, xy.1, b) ∷ []) a.next_place
    ∙ ap₂ (λ cw lh. q.shown ++ (column * cw, row * lh, b) ∷ []) w l
