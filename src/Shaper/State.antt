-- ===== src/Shaper/State.antt =====
-- The data of Win32_Shaper/win32Project/stdafx.h, the statics of WndProc, and what Windows keeps for the
-- program: its scroll bars, check marks, clipboard and threads, and the drawing calls made so far.
use ridingthecode.Common.{ℕ, zero, suc, ◌*◌, ◌/◌, Bool, List, [], ◌∷◌, Option}
use ridingthecode.Common.Int.{ℤ}
use ridingthecode.Common.Text.{Bytes}
use ridingthecode.Common.Fault.{Fault, ok, fault}

pub record Point : Type 0 where
  pub x : ℤ
  pub y : ℤ

pub record Rect : Type 0 where
  pub left : ℤ
  pub top : ℤ
  pub right : ℤ
  pub bottom : ℤ

-- The four vectors, one entry in each for a shape. The numbers are never negative.
pub record Shapes : Type 0 where
  pub modes : List ℕ
  pub shapes : List Rect
  pub types : List ℕ
  pub pens : List ℕ

-- Its two window handles are left out: there is one main window and one paint box.
pub record DrawStr : Type 0 where
  pub current_pen : ℕ
  pub current_bg : ℕ
  pub last_bg : ℕ
  pub current_shape : ℕ
  pub mode : ℕ
  pub shp : Shapes

pub record ShapeCopy : Type 0 where
  pub mode : ℕ
  pub type : ℕ
  pub pen : ℕ
  pub shape : Rect

-- What Windows keeps of a scroll bar.
pub record ScrollInfo : Type 0 where
  pub n_min : ℤ
  pub n_max : ℤ
  pub n_page : ℤ
  pub n_pos : ℤ

-- A colour as its red, green and blue.
abbrev pub Color : Type 0
Color = ℕ × ℕ × ℕ

-- The calls of the drawing library that the program makes.
pub data Gdi : Type 0 where
  solid_brush : Color → Gdi
  dc_brush : Gdi
  dc_brush_color : Color → Gdi
  rop2 : ℕ → Gdi
  map_anisotropic : Gdi
  viewport_org : ℕ → ℕ → Gdi
  rectangle : Rect → Gdi
  ellipse : Rect → Gdi
  text_out : ℤ → ℤ → Bytes → ℕ → Gdi
  fill_rgn : Color → Gdi

-- `is_active` says that the main window is the active one: the window that GetActiveWindow gives.
-- The client area reaches from the origin to `client_right` and `client_bottom`. A thread of
-- seizureWindows has a number from 1, `p_thread` is the last one made and 0 is NULL.
pub record Program : Type 0 where
  pub dstr : DrawStr
  pub h_bar : ScrollInfo
  pub v_bar : ScrollInfo
  pub menu : ℕ → Bool
  pub dialog : ℕ → Bool
  pub clipboard : Option ShapeCopy
  pub is_active : Bool
  pub client_right : ℕ
  pub client_bottom : ℕ
  pub horz_pos : ℤ
  pub vert_pos : ℤ
  pub ms_start : Point
  pub ms_previous : Point
  pub draw_shape : Bool
  pub p_thread : ℕ
  pub threads : ℕ
  pub is_running : ℕ → Bool
  pub is_invalid : Bool
  pub has_quit : Bool
  pub screen : List Gdi

-- `.at(i)`, and an index of an array: past the end is a fault.
unfoldable pub at : {A : Type 0} → List A → ℕ → Fault A
at [] i = fault
at (x ∷ xs) zero = ok x
at (x ∷ xs) (suc i) = at xs i

-- `(double)rand() / (RAND_MAX + 1) * (RANGE_MAX - RANGE_MIN)`, with the RAND_MAX of 32767.
abbrev pub random_index : ℕ → ℕ
random_index r = r * 5 / 32768
