-- ===== src/Shaper/Drawing.antt =====
-- Win32_Shaper/win32Project/drawing.cpp, with the tables of utility.cpp: what is drawn, and the vectors of
-- shapes. A function that only draws gives its calls in order.
use ridingthecode.Common.{ℕ, zero, suc, ◌+◌, ◌/◌, List, [], ◌∷◌, ◌++◌, ◌==◌, if◌then◌else◌, length}
use ridingthecode.Common.Int.{ℤ, pos, negsuc, ◌+ℤ◌, ◌-ℤ◌}
use ridingthecode.Common.Text.{codes}
use ridingthecode.Common.Fault.{Fault, ok, fault, ◌>>=◌}
use ridingthecode.Shaper.Ids.{square, circle}
use ridingthecode.Shaper.State.{Point, Rect, Shapes, DrawStr, Color, Gdi, Program, at, random_index}
use ridingthecode.Shaper.State.Gdi.{
  solid_brush, dc_brush, dc_brush_color, rop2, map_anisotropic, viewport_org, rectangle, ellipse,
  text_out, fill_rgn,
}

-- Red, blue, green, black and white. The pens of getPens have these colours too, and draw nothing.
unfoldable pub get_colors : List Color
get_colors = (255, 0, 0) ∷ (0, 0, 255) ∷ (0, 255, 0) ∷ (0, 0, 0) ∷ (255, 255, 255) ∷ []

-- R2_COPYPEN, R2_XORPEN, R2_NOTCOPYPEN and R2_NOTXORPEN of wingdi.h
unfoldable pub get_modes : List ℕ
get_modes = 13 ∷ 7 ∷ 4 ∷ 10 ∷ []

-- The calls, added to those made before.
abbrev pub draws : Program → List Gdi → Program
draws p calls = record p { screen = p.screen ++ calls }

unfoldable pub client_rect : Program → Rect
client_rect p = record {
  left = pos 0;
  top = pos 0;
  right = pos p.client_right;
  bottom = pos p.client_bottom;
}

unfoldable pub clean_screen : Program → Fault (List Gdi)
clean_screen p = do
  color ← at get_colors p.dstr.current_bg
  ok (solid_brush color ∷ rectangle (client_rect p) ∷ [])

abbrev pub no_shapes : Shapes
no_shapes = record { modes = []; shapes = []; types = []; pens = [] }

unfoldable pub clear_shapes : Program → Program
clear_shapes p = let d : DrawStr = record p.dstr { shp = no_shapes } in record p { dstr = d }

-- The point that the source gives back, `ms_previous`, is not used.
unfoldable pub index_shapes : Point → Point → ℤ → ℤ → Program → Fault Program
index_shapes ms_previous ms_start horz_pos vert_pos p = do
  let rect : Rect = record {
    left = ms_start.x +ℤ horz_pos;
    top = ms_start.y +ℤ vert_pos;
    right = ms_previous.x +ℤ horz_pos;
    bottom = ms_previous.y +ℤ vert_pos;
  }
  cleaned ← clean_screen p
  let s = p.dstr.shp
  let types =
      if p.dstr.current_shape == square
      then s.types ++ square ∷ []
      else if p.dstr.current_shape == circle
      then s.types ++ circle ∷ []
      else s.types
  let shp : Shapes = record {
    types = types;
    modes = s.modes ++ p.dstr.mode ∷ [];
    shapes = s.shapes ++ rect ∷ [];
    pens = s.pens ++ p.dstr.current_pen ∷ [];
  }
  let d : DrawStr = record p.dstr { shp = shp }
  ok (draws (record p { dstr = d }) cleaned)

unfoldable pub set_background : Program → Fault Program
set_background p = do
  calls ← clean_screen p
  let d : DrawStr = record p.dstr { last_bg = p.dstr.current_bg }
  ok (clear_shapes (draws (record p { dstr = d }) calls))

-- A square or a circle in a box.
unfoldable pub outline : ℕ → Rect → List Gdi
outline type r =
    if type == square then rectangle r ∷ [] else if type == circle then ellipse r ∷ [] else []

-- The selection box: erased, and painted again.
unfoldable pub paint_selection : Point → Point → Program → Fault (List Gdi)
paint_selection ms_start ms_previous p = do
  bg ← at get_colors p.dstr.current_bg
  pen ← at get_colors p.dstr.current_pen
  let rect : Rect = record {
    left = ms_start.x;
    top = ms_start.y;
    right = ms_previous.x;
    bottom = ms_previous.y;
  }
  let erased = solid_brush bg ∷ outline p.dstr.current_shape rect
  let painted = solid_brush pen ∷ outline p.dstr.current_shape rect
  ok (
      if p.dstr.current_shape == square
      then erased ++ painted
      else if p.dstr.current_shape == circle
      then erased ++ painted
      else [])

unfoldable pub adjusted : Rect → ℤ → ℤ → Rect
adjusted rt horz_pos vert_pos = record {
  left = rt.left -ℤ horz_pos;
  top = rt.top -ℤ vert_pos;
  right = rt.right -ℤ horz_pos;
  bottom = rt.bottom -ℤ vert_pos;
}

-- A round of the loop of drawShapes.
unfoldable pub draw_shape_at : Shapes → ℤ → ℤ → ℕ → Fault (List Gdi)
draw_shape_at shp horz_pos vert_pos i = do
  pen ← at shp.pens i
  color ← at get_colors pen
  mode ← at shp.modes i
  rop ← at get_modes mode
  rt ← at shp.shapes i
  type ← at shp.types i
  ok (dc_brush_color color ∷ rop2 rop ∷ outline type (adjusted rt horz_pos vert_pos))

-- The rounds from `i` on; the second number is how many are left.
unfoldable pub draw_shapes_from : Shapes → ℤ → ℤ → ℕ → ℕ → Fault (List Gdi)
draw_shapes_from shp horz_pos vert_pos i zero = ok []
draw_shapes_from shp horz_pos vert_pos i (suc n) = do
  calls ← draw_shape_at shp horz_pos vert_pos i
  others ← draw_shapes_from shp horz_pos vert_pos (i + 1) n
  ok (calls ++ others)

unfoldable pub draw_shapes : Shapes → ℤ → ℤ → Fault (List Gdi)
draw_shapes shp horz_pos vert_pos = draw_shapes_from shp horz_pos vert_pos 0 (length shp.shapes)

-- The text is drawn with the length that `sizeof` gives, its NUL included.
unfoldable pub draw_logo : ℕ → ℕ → List Gdi
draw_logo clientx clienty =
    let disc : Rect = record {
      left = negsuc 49;
      top = negsuc 49;
      right = pos 70;
      bottom = pos 70;
    } in
    let box : Rect = record { left = negsuc 99; top = negsuc 99; right = pos 0; bottom = pos 0 } in
    viewport_org (clientx / 2) (clienty / 2)
    ∷ dc_brush
    ∷ dc_brush_color (0, 0, 255)
    ∷ ellipse disc
    ∷ dc_brush
    ∷ dc_brush_color (255, 0, 0)
    ∷ rectangle box
    ∷ text_out (negsuc 79) (negsuc 18) (codes "Circles n' Squares") 19
    ∷ viewport_org 0 0
    ∷ []

-- The structure is read from the active window, and so are the positions: a window other than the
-- main one, or none, has no such structure.
unfoldable pub on_paint : Program → Fault (List Gdi)
on_paint p = do
  cleaned ← if p.draw_shape then ok [] else clean_screen p
  shapes ←
      if p.draw_shape
      then ok []
      else if p.is_active
      then draw_shapes p.dstr.shp p.h_bar.n_pos p.v_bar.n_pos
      else fault
  ok (map_anisotropic ∷ cleaned ++ draw_logo p.client_right p.client_bottom ++ shapes)

-- The loop of miniParty: `rand k` is what the call number `k` of rand gives.
unfoldable pub mini_party_from : (ℕ → ℕ) → ℕ → ℕ → Fault (List Gdi)
mini_party_from rand count zero = ok []
mini_party_from rand count (suc n) = do
  color ← at get_colors (random_index (rand count))
  others ← mini_party_from rand (count + 1) n
  ok (fill_rgn color ∷ others)

unfoldable pub mini_party : (ℕ → ℕ) → Program → Fault (List Gdi)
mini_party rand p = do
  rounds ← mini_party_from rand 0 100
  color ← at get_colors p.dstr.current_bg
  ok (rounds ++ fill_rgn color ∷ [])
