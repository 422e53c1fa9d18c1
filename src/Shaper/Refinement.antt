-- ===== src/Shaper/Refinement.antt =====
-- The program shows a list of shapes, and each event changes the list as a drawing is expected to
-- change: what WndProc and PaintBox do, on every message and with every fault.
use ridingthecode.Common.{
  ℕ, zero, suc, ◌<◌, Bool, true, false, List, [], ◌∷◌, ◌++◌, ◌==◌, if◌then◌else◌, Option, none,
  some, arith, ◌≡◌, refl, ap, sym, ◌∙◌, length, ◌⊎◌, inl, append-nil, inr,
}
use ridingthecode.Common.Int.{◌+ℤ◌}
use ridingthecode.Common.Fault.{Fault, ok, fault, ◌>>=◌, ok->>=}
use ridingthecode.Shaper.Ids
use ridingthecode.Shaper.State.{Rect, Shapes, ShapeCopy, Gdi, Program, at, map_anisotropic}
use ridingthecode.Shaper.Drawing.{
  draws, clean_screen, index_shapes, set_background, paint_selection, on_paint, draw_shapes,
  clear_shapes, draw_logo,
}
use ridingthecode.Shaper.Clipboard.{copy_of, copy_last, set_clipboard, push}
use ridingthecode.Shaper.Canvas.{
  columns, InRange, AllInRange, picture, get_colors-lt, draw_shapes-columns, AllInRange-append,
  columns-append, length-map,
}

abbrev pub OnSome : Option ShapeCopy → Type 0
OnSome none = Unit {0}
OnSome (some c) = InRange c

-- The vectors hold the list `cs`, and every number is one of a colour, a shape or a mode.
pub record Shows (p : Program) (cs : List ShapeCopy) : Type 0 where
  pub is_columns : p.dstr.shp ≡ columns cs
  pub in_range : AllInRange cs
  pub pen : p.dstr.current_pen < 5
  pub bg : p.dstr.current_bg < 5
  pub shape : p.dstr.current_shape < 2
  pub mode : p.dstr.mode < 4
  pub copied : OnSome p.clipboard

-- The shape that the mouse draws: from where it went down to where it was last seen, at the scroll
-- positions that are stored.
unfoldable pub drawn : Program → ShapeCopy
drawn p =
    let rect : Rect = record {
      left = p.ms_start.x +ℤ p.horz_pos;
      top = p.ms_start.y +ℤ p.vert_pos;
      right = p.ms_previous.x +ℤ p.horz_pos;
      bottom = p.ms_previous.y +ℤ p.vert_pos;
    } in
    record {
      mode = p.dstr.mode;
      type = p.dstr.current_shape;
      pen = p.dstr.current_pen;
      shape = rect;
    }

-- What ID_COPY copies.
unfoldable pub last_of : List ShapeCopy → Fault ShapeCopy
last_of [] = fault
last_of (c ∷ []) = ok c
last_of (c ∷ d ∷ ds) = last_of (d ∷ ds)

copy_of-columns :
    (c : ShapeCopy) (cs : List ShapeCopy)
    → copy_of (columns (c ∷ cs)) (length cs) ≡ last_of (c ∷ cs)
unfolding copy_of last_of at
copy_of-columns c [] = refl
copy_of-columns c (d ∷ ds) = copy_of-columns d ds

copy_last-columns :
    (cs : List ShapeCopy) → copy_last (columns cs) (length (columns cs).shapes) ≡ last_of cs
unfolding copy_last last_of
copy_last-columns [] = refl
copy_last-columns (c ∷ cs) =
    ap (copy_of (columns (c ∷ cs))) (length-map (λ (d : ShapeCopy). d.shape) cs)
    ∙ copy_of-columns c cs

type_pushed :
    (ts : List ℕ) (t : ℕ)
    → t < 2
    → (if t == Ids.square
        then ts ++ Ids.square ∷ []
        else if t == Ids.circle
        then ts ++ Ids.circle ∷ []
        else ts)
      ≡ ts ++ t ∷ []
type_pushed ts zero h = refl
type_pushed ts (suc zero) h = refl
type_pushed ts (suc (suc t)) h = absurd (omega arith)

paint_cases :
    (d a : Bool) (logo : List Gdi) {clean draw : Fault (List Gdi)} {c q : List Gdi}
    → clean ≡ ok c
    → draw ≡ ok q
    → (d ≡ true) ⊎ (a ≡ true)
    → (before : List Gdi) × (((if d then ok [] else clean) >>= (λ cleaned.
          (if d then ok [] else if a then draw else fault)
          >>= (λ shapes. ok (map_anisotropic ∷ cleaned ++ logo ++ shapes))))
        ≡ ok (before ++ (if d then [] else q)))
paint_cases true a logo ec eq h = (map_anisotropic ∷ logo ++ [], ap ok (sym (append-nil _)))
paint_cases false true logo {c} {q} ec eq h =
    (map_anisotropic ∷ c ++ logo, ok->>= _ ec ∙ ok->>= _ eq)
paint_cases false false logo ec eq (inl h) = cc
paint_cases false false logo ec eq (inr h) = cc

module _ {p : Program} {cs : List ShapeCopy} (s : Shows p cs) where
  pub clean_screen-ok : (calls : List Gdi) × (clean_screen p ≡ ok calls)
  unfolding clean_screen
  clean_screen-ok = (_, ok->>= _ (get_colors-lt p.dstr.current_bg s.bg))

  pub draws-Shows : (calls : List Gdi) → Shows (draws p calls) cs
  draws-Shows calls = record {
    is_columns = s.is_columns;
    in_range = s.in_range;
    pen = s.pen;
    bg = s.bg;
    shape = s.shape;
    mode = s.mode;
    copied = s.copied;
  }

  pub clear_shapes-Shows : Shows (clear_shapes p) []
  unfolding clear_shapes
  clear_shapes-Shows = record {
    is_columns = refl;
    in_range = tt;
    pen = s.pen;
    bg = s.bg;
    shape = s.shape;
    mode = s.mode;
    copied = s.copied;
  }

  pub push-Shows : (c : ShapeCopy) → InRange c → Shows (push c p) (cs ++ c ∷ [])
  unfolding push
  push-Shows c r = record {
    is_columns =
        ap
          (λ (t : Shapes).
            let shp : Shapes = record {
              modes = t.modes ++ c.mode ∷ [];
              types = t.types ++ c.type ∷ [];
              pens = t.pens ++ c.pen ∷ [];
              shapes = t.shapes ++ c.shape ∷ [];
            } in
            shp)
          s.is_columns
        ∙ sym (columns-append cs c);
    in_range = AllInRange-append cs (c ∷ []) s.in_range (r, tt);
    pen = s.pen;
    bg = s.bg;
    shape = s.shape;
    mode = s.mode;
    copied = s.copied;
  }

  pub set_background-Shows : (q : Program) × (set_background p ≡ ok q) × Shows q []
  unfolding set_background clear_shapes
  set_background-Shows = (
    _,
    ok->>= _ (clean_screen-ok.1),
    record {
      is_columns = refl;
      in_range = tt;
      pen = s.pen;
      bg = s.bg;
      shape = s.shape;
      mode = s.mode;
      copied = s.copied;
    },
  )

  pub paint_selection-ok :
      (calls : List Gdi) × (paint_selection p.ms_start p.ms_previous p ≡ ok calls)
  unfolding paint_selection
  paint_selection-ok = (
    _,
    ok->>= _ (get_colors-lt p.dstr.current_bg s.bg)
        ∙ ok->>= _ (get_colors-lt p.dstr.current_pen s.pen),
  )

  pub index_shapes-push :
      (calls : List Gdi) × (index_shapes p.ms_previous p.ms_start p.horz_pos p.vert_pos p
        ≡ ok (draws (push (drawn p) p) calls))
  unfolding index_shapes drawn push
  index_shapes-push = (
    clean_screen-ok.0,
    ok->>= _ clean_screen-ok.1
        ∙ rw (type_pushed p.dstr.shp.types p.dstr.current_shape s.shape) refl,
  )

  pub on_paint-ok :
      (p.draw_shape ≡ true) ⊎ (p.is_active ≡ true)
      → (before : List Gdi) × (on_paint p
          ≡ ok (before ++ (if p.draw_shape then [] else picture p.h_bar.n_pos p.v_bar.n_pos cs)))
  unfolding on_paint
  on_paint-ok h =
      paint_cases p.draw_shape p.is_active (draw_logo p.client_right p.client_bottom)
        clean_screen-ok.1
        (ap (λ t. draw_shapes t p.h_bar.n_pos p.v_bar.n_pos) s.is_columns
          ∙ draw_shapes-columns p.h_bar.n_pos p.v_bar.n_pos cs s.in_range)
        h

  pub set_clipboard-last :
      set_clipboard p
      ≡ (if p.is_active then last_of cs else fault) >>= (λ c. ok (record p { clipboard = some c }))
  unfolding set_clipboard
  set_clipboard-last =
      ap
        (λ (m : Fault ShapeCopy).
          (if p.is_active then m else fault) >>= (λ c. ok (record p { clipboard = some c })))
        (ap (λ (t : Shapes). copy_last t (length t.shapes)) s.is_columns ∙ copy_last-columns cs)
