-- ===== src/Shaper/Canvas.antt =====
-- The drawing as one list of shapes: the four vectors of Shapes are its columns, and drawShapes draws
-- the shapes of the list in order.
use ridingthecode.Common.{
  ℕ, zero, suc, ◌+◌, ◌<◌, List, [], ◌∷◌, ◌++◌, map, length, get_or, arith, ◌≡◌, refl, ap, sym,
  append_assoc, length-append, ap₂,
}
use mathlib.Core.List.{map-append}
use ridingthecode.Common.Int.{ℤ}
use ridingthecode.Common.Fault.{ok}
use ridingthecode.Shaper.State.{Shapes, ShapeCopy, Gdi, at}
use ridingthecode.Shaper.State.Gdi.{dc_brush_color, rop2}
use ridingthecode.Shaper.Drawing.{
  get_colors, get_modes, outline, adjusted, draw_shape_at, draw_shapes_from, draw_shapes,
}

abbrev pub columns : List ShapeCopy → Shapes
columns xs = record {
  modes = map (λ (c : ShapeCopy). c.mode) xs;
  shapes = map (λ (c : ShapeCopy). c.shape) xs;
  types = map (λ (c : ShapeCopy). c.type) xs;
  pens = map (λ (c : ShapeCopy). c.pen) xs;
}

-- A mode, a type and a colour that there are.
abbrev pub InRange : ShapeCopy → Type 0
InRange c = (c.mode < 4) × (c.type < 2) × (c.pen < 5)

abbrev pub AllInRange : List ShapeCopy → Type 0
AllInRange [] = Unit {0}
AllInRange (c ∷ cs) = InRange c × AllInRange cs

-- What one shape is drawn by, and the whole list.
unfoldable pub painted : ℤ → ℤ → ShapeCopy → List Gdi
painted horz_pos vert_pos c =
    dc_brush_color (get_or get_colors c.pen (0, 0, 0))
    ∷ rop2 (get_or get_modes c.mode 0)
    ∷ outline c.type (adjusted c.shape horz_pos vert_pos)

unfoldable pub picture : ℤ → ℤ → List ShapeCopy → List Gdi
picture horz_pos vert_pos [] = []
picture horz_pos vert_pos (c ∷ cs) = painted horz_pos vert_pos c ++ picture horz_pos vert_pos cs

pub at_in :
    {A : Type 0} (xs : List A) (i : ℕ) (d : A) → i < length xs → at xs i ≡ ok (get_or xs i d)
unfolding at
at_in [] i d h = absurd (omega arith)
at_in (x ∷ xs) zero d h = refl
at_in (x ∷ xs) (suc i) d h = at_in xs i d (omega arith)

pub at-map-append :
    {A B : Type 0} (f : A → B) (before : List A) (x : A) (after : List A)
    → at (map f (before ++ x ∷ after)) (length before) ≡ ok (f x)
unfolding at
at-map-append f [] x after = refl
at-map-append f (y ∷ before) x after = at-map-append f before x after

pub get_colors-lt : (pen : ℕ) → pen < 5 → at get_colors pen ≡ ok (get_or get_colors pen (0, 0, 0))
unfolding get_colors
get_colors-lt pen h = at_in get_colors pen (0, 0, 0) h

pub get_modes-lt : (mode : ℕ) → mode < 4 → at get_modes mode ≡ ok (get_or get_modes mode 0)
unfolding get_modes
get_modes-lt mode h = at_in get_modes mode 0 h

draw_shape_at-columns :
    (horz_pos vert_pos : ℤ) (before : List ShapeCopy) (c : ShapeCopy) (after : List ShapeCopy)
    → InRange c
    → draw_shape_at (columns (before ++ c ∷ after)) horz_pos vert_pos (length before)
      ≡ ok (painted horz_pos vert_pos c)
unfolding draw_shape_at painted
draw_shape_at-columns horz_pos vert_pos before c after (m, _, p) =
    rw
      (
        at-map-append (λ (c : ShapeCopy). c.pen) before c after,
        at-map-append (λ (c : ShapeCopy). c.mode) before c after,
        at-map-append (λ (c : ShapeCopy). c.shape) before c after,
        at-map-append (λ (c : ShapeCopy). c.type) before c after,
      )
      (rw (get_colors-lt c.pen p, get_modes-lt c.mode m))

next_round :
    (horz_pos vert_pos : ℤ) (before : List ShapeCopy) (c : ShapeCopy) (cs : List ShapeCopy)
    → draw_shapes_from
        (columns (before ++ c ∷ cs))
        horz_pos
        vert_pos
        (length before + 1)
        (length cs)
      ≡ draw_shapes_from
          (columns ((before ++ c ∷ []) ++ cs))
          horz_pos
          vert_pos
          (length (before ++ c ∷ []))
          (length cs)
next_round h v before c cs =
    ap₂ (λ ds n. draw_shapes_from (columns ds) h v n (length cs))
      (sym (append_assoc before (c ∷ []) cs)) (omega (arith, length-append {0} before (c ∷ [])))

pub length-map : {A B : Type 0} (f : A → B) (xs : List A) → length (map f xs) ≡ length xs
length-map f [] = refl
length-map f (x ∷ xs) = ap suc (length-map f xs)

draw_shapes_from-columns :
    (horz_pos vert_pos : ℤ) (before cs : List ShapeCopy)
    → AllInRange cs
    → draw_shapes_from (columns (before ++ cs)) horz_pos vert_pos (length before) (length cs)
      ≡ ok (picture horz_pos vert_pos cs)
unfolding draw_shapes_from picture
draw_shapes_from-columns h v before [] r = refl
draw_shapes_from-columns h v before (c ∷ cs) (r, rs) = rw (
  draw_shape_at-columns h v before c cs r,
  next_round h v before c cs,
  draw_shapes_from-columns h v (before ++ c ∷ []) cs rs,
)

-- drawShapes draws every shape, in order.
pub draw_shapes-columns :
    (horz_pos vert_pos : ℤ) (cs : List ShapeCopy)
    → AllInRange cs
    → draw_shapes (columns cs) horz_pos vert_pos ≡ ok (picture horz_pos vert_pos cs)
unfolding draw_shapes
draw_shapes-columns h v cs r = rw length-map (draw_shapes_from-columns h v [] cs r)

pub picture-append :
    (horz_pos vert_pos : ℤ) (cs ds : List ShapeCopy)
    → picture horz_pos vert_pos (cs ++ ds)
      ≡ picture horz_pos vert_pos cs ++ picture horz_pos vert_pos ds
unfolding picture
picture-append h v [] ds = refl
picture-append h v (c ∷ cs) ds = simp (picture-append h v cs ds, append_assoc)

pub AllInRange-append :
    (cs ds : List ShapeCopy) → AllInRange cs → AllInRange ds → AllInRange (cs ++ ds)
AllInRange-append [] ds r q = q
AllInRange-append (c ∷ cs) ds (r, rs) q = (r, AllInRange-append cs ds rs q)

pub columns-append :
    (cs : List ShapeCopy) (d : ShapeCopy)
    → columns (cs ++ d ∷ []) ≡ record {
      modes = (columns cs).modes ++ d.mode ∷ [];
      shapes = (columns cs).shapes ++ d.shape ∷ [];
      types = (columns cs).types ++ d.type ∷ [];
      pens = (columns cs).pens ++ d.pen ∷ [];
    }
columns-append cs d = simp map-append
