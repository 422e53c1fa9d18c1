-- ===== src/Shaper/Menu.antt =====
-- Win32_Shaper/win32Project/menu.cpp: the check marks of the menu and of the paint box, and what a
-- command selects.
pub mod Cases
pub mod Sync
use ridingthecode.Common.{ℕ, ◌+◌, ◌-◌, Bool, true, false, ◌||◌, List, [], ◌∷◌, ◌==◌, if◌then◌else◌}
use ridingthecode.Shaper.Ids.{
  idm_about, idm_exit, idc_pen_red, default_color_pen, idc_pen_blue, idc_pen_green, idc_pen_black,
  idc_pen_white, idc_bg_red, default_color_bg, idc_bg_blue, idc_bg_green, idc_bg_black,
  idc_bg_white, idc_shape_square, default_shape, idc_shape_circle, default_mode, idc_mode_normal,
  idc_mode_xor, idc_mode_inverse, idc_mode_notxor, id_shape_square, default_menu_shape,
  id_shape_circle, id_pen_red, default_menu_pen, id_pen_blue, id_pen_green, id_pen_black,
  id_pen_white, id_background_red, default_menu_bg, id_background_blue, id_background_green,
  id_background_black, id_background_white, id_mode_normal, default_menu_mode, id_mode_xor,
  id_mode_inverse, id_mode_notxor,
}
use ridingthecode.Shaper.State.{DrawStr, Program}

-- CheckMenuItem and CheckDlgButton: the mark of one control.
abbrev pub check : (ℕ → Bool) → ℕ → Bool → ℕ → Bool
check marks id v j = if j == id then v else marks j

unfoldable pub check_pen : ℕ → Program → Program
check_pen selection p =
    let dialog = check p.dialog (default_color_pen + p.dstr.current_pen) false in
    let menu = check p.menu (default_menu_pen + p.dstr.current_pen) false in
    let current : DrawStr = record p.dstr { current_pen = selection } in
    record p {
      menu = check menu (default_menu_pen + selection) true;
      dialog = check dialog (default_color_pen + selection) true;
      dstr = current;
    }

unfoldable pub check_bg : ℕ → Program → Program
check_bg selection p =
    let dialog = check p.dialog (default_color_bg + p.dstr.current_bg) false in
    let menu = check p.menu (default_menu_bg + p.dstr.current_bg) false in
    let current : DrawStr = record p.dstr { current_bg = selection } in
    record p {
      dialog = check dialog (default_color_bg + selection) true;
      menu = check menu (default_menu_bg + selection) true;
      dstr = current;
    }

unfoldable pub check_shape : ℕ → Program → Program
check_shape selection p =
    let dialog = check p.dialog (default_shape + p.dstr.current_shape) false in
    let menu = check p.menu (default_menu_shape + p.dstr.current_shape) false in
    let current : DrawStr = record p.dstr { current_shape = selection } in
    record p {
      menu = check menu (default_menu_shape + selection) true;
      dialog = check dialog (default_shape + selection) true;
      dstr = current;
    }

unfoldable pub check_mode : ℕ → Program → Program
check_mode selection p =
    let dialog = check p.dialog (default_mode + p.dstr.mode) false in
    let menu = check p.menu (default_menu_mode + p.dstr.mode) false in
    let current : DrawStr = record p.dstr { mode = selection } in
    record p {
      menu = check menu (default_menu_mode + selection) true;
      dialog = check dialog (default_mode + selection) true;
      dstr = current;
    }

-- InvalidateRect
abbrev pub invalidate : Program → Program
invalidate p = record p { is_invalid = true }

-- The labels of a `case`.
abbrev pub one_of : ℕ → List ℕ → Bool
one_of n [] = false
one_of n (m ∷ ms) = n == m || one_of n ms

-- The check boxes of the paint box, in groups.
abbrev pub idc_modes : List ℕ
idc_modes = idc_mode_normal ∷ idc_mode_xor ∷ idc_mode_inverse ∷ idc_mode_notxor ∷ []

abbrev pub idc_pens : List ℕ
idc_pens = idc_pen_red ∷ idc_pen_blue ∷ idc_pen_green ∷ idc_pen_black ∷ idc_pen_white ∷ []

abbrev pub idc_bgs : List ℕ
idc_bgs = idc_bg_red ∷ idc_bg_blue ∷ idc_bg_green ∷ idc_bg_black ∷ idc_bg_white ∷ []

abbrev pub idc_shapes : List ℕ
idc_shapes = idc_shape_square ∷ idc_shape_circle ∷ []

unfoldable pub is_check_box : ℕ → Bool
is_check_box id =
    one_of id idc_modes || (one_of id idc_pens || (one_of id idc_bgs || one_of id idc_shapes))

-- A command of the paint box.
unfoldable pub change_dbox : ℕ → Program → Program
change_dbox wm_id p =
    if one_of wm_id idc_modes
    then check_mode (wm_id - default_mode) p
    else if one_of wm_id idc_pens
    then check_pen (wm_id - default_color_pen) p
    else if one_of wm_id idc_bgs
    then invalidate (check_bg (wm_id - default_color_bg) p)
    else if one_of wm_id idc_shapes
    then check_shape (wm_id - default_shape) p
    else p

-- A command of the menu, and whether it is one of those here. The modal About box changes nothing,
-- and DestroyWindow has WM_DESTROY sent at once.
unfoldable pub change_main : ℕ → Program → Program × Bool
change_main wm_id p =
    if one_of wm_id (id_mode_normal ∷ id_mode_xor ∷ id_mode_inverse ∷ id_mode_notxor ∷ [])
    then (check_mode (wm_id - default_menu_mode) p, true)
    else if one_of wm_id
        (id_pen_red ∷ id_pen_blue ∷ id_pen_green ∷ id_pen_black ∷ id_pen_white ∷ [])
    then (check_pen (wm_id - default_menu_pen) p, true)
    else if one_of wm_id (
        id_background_red ∷ id_background_blue ∷ id_background_green ∷ id_background_black
        ∷ id_background_white ∷ [])
    then (invalidate (check_bg (wm_id - default_menu_bg) p), true)
    else if one_of wm_id (id_shape_square ∷ id_shape_circle ∷ [])
    then (check_shape (wm_id - default_menu_shape) p, true)
    else if wm_id == idm_about
    then (p, true)
    else if wm_id == idm_exit
    then (record p { has_quit = true }, true)
    else (p, false)
