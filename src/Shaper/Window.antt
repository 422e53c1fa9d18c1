-- ===== src/Shaper/Window.antt =====
-- Win32_Shaper/win32Project/procs.cpp, intialize.cpp and the commands of menu.cpp: the procedures of the
-- main window, of the paint box and of the About box, and the program from its start.
use ridingthecode.Common.{
  ℕ, ◌+◌, Bool, true, false, not, List, [], ◌∷◌, Option, none, some, ◌==◌, ◌||◌, if◌then◌else◌,
}
use ridingthecode.Common.Int.{ℤ, pos}
use ridingthecode.Common.Fault.{Fault, ok, ◌>>=◌}
use ridingthecode.Shaper.Ids.{
  square, normal, black, white, idc_erase, default_menu_bg, id_mode_normal, id_party, id_copy,
  id_paste, id_mini_party,
}
use ridingthecode.Shaper.State.{Point, DrawStr, ShapeCopy, ScrollInfo, Program, random_index}
use ridingthecode.Shaper.Scroll.{v_scroll_bar, h_scroll_bar, wm_size}
use ridingthecode.Shaper.Menu.{
  check, check_pen, check_bg, check_shape, check_mode, change_dbox, change_main, invalidate,
  is_check_box,
}
use ridingthecode.Shaper.Drawing.{
  draws, clean_screen, clear_shapes, no_shapes, index_shapes, set_background, paint_selection,
  on_paint, mini_party,
}
use ridingthecode.Shaper.Clipboard.{set_clipboard, get_clipboard}

-- The messages of the main window, with what their parameters carry. A command also brings the
-- results of rand while it is handled, and a scroll message where the box is dragged to.
pub data Message : Type 0 where
  create : Message
  size : ℕ → ℕ → Message
  hscroll : ℕ → ℤ → Message
  vscroll : ℕ → ℤ → Message
  timer : Message
  command : ℕ → (ℕ → ℕ) → Message
  erasebkgnd : Message
  lbuttondown : ℕ → ℕ → Message
  mousemove : ℕ → ℕ → Message
  paint : Message
  lbuttonup : Message
  destroy : Message
  other : Message

unfoldable pub top_menu : ℕ → (ℕ → ℕ) → Program → Fault Program
top_menu wm_id rand p =
    if wm_id == id_mini_party
    then mini_party rand p >>= (λ calls. ok (draws p calls))
    else if wm_id == id_copy
    then set_clipboard p
    else if wm_id == id_paste
    then get_clipboard p
    else ok p

-- CreateThread of seizureWindows.
unfoldable pub start_party : Program → Program
start_party p = record p {
  p_thread = p.threads + 1;
  threads = p.threads + 1;
  is_running = check p.is_running (p.threads + 1) true;
}

-- A message that seizureWindows sends.
unfoldable pub seizure_message : ℕ → (ℕ → ℕ) → Message
seizure_message r rand = command (default_menu_bg + random_index r) rand

abbrev pub mouse : ℕ → ℕ → Point
mouse x y = record { x = pos x; y = pos y }

-- BeginPaint of a WM_PAINT sends WM_ERASEBKGND where the region is to be erased, as after `invalidate`: that
-- is an event `erasebkgnd` just before the event `paint`.
module _ (place : ScrollInfo → ℤ → ℤ) where
  unfoldable pub wnd_proc : Message → Program → Fault Program
  wnd_proc create p = ok p
  wnd_proc (size cx cy) p = ok (wm_size place (record p { client_right = cx; client_bottom = cy }))
  wnd_proc (hscroll code track) p =
      let (q, horz_pos) = h_scroll_bar place code track p in ok (record q { horz_pos = horz_pos })
  wnd_proc (vscroll code track) p =
      let (q, vert_pos) = v_scroll_bar place code track p in ok (record q { vert_pos = vert_pos })
  wnd_proc timer p = ok (record p { is_running = check p.is_running p.p_thread false })
  wnd_proc (command wm_id rand) p = do
    q ← top_menu wm_id rand (change_main wm_id p).0
    ok (if wm_id == id_party then start_party q else q)
  wnd_proc erasebkgnd p = if p.dstr.current_bg == p.dstr.last_bg then ok p else set_background p
  wnd_proc (lbuttondown x y) p = ok (
      if p.draw_shape
      then p
      else record p { draw_shape = true; ms_previous = mouse x y; ms_start = mouse x y })
  wnd_proc (mousemove x y) p =
      if p.draw_shape
      then paint_selection p.ms_start p.ms_previous p
        >>= (λ calls. ok (record p { screen = (draws p calls).screen; ms_previous = mouse x y }))
      else ok p
  wnd_proc paint p = do
    calls ← on_paint p
    ok (record p { screen = (draws p calls).screen; is_invalid = false })
  wnd_proc lbuttonup p =
      if p.draw_shape
      then index_shapes p.ms_previous p.ms_start p.horz_pos p.vert_pos p
        >>= (λ q. ok (invalidate (record q { draw_shape = false })))
      else ok p
  wnd_proc destroy p = ok (record p { has_quit = true })
  wnd_proc other p = ok p

pub data DialogMessage : Type 0 where
  initdialog : DialogMessage
  command : ℕ → DialogMessage
  other : DialogMessage

-- The About box: what EndDialog is called with, and whether the message is handled.
-- IDOK is 1 and IDCANCEL is 2.
pub about : DialogMessage → Option ℕ × Bool
about DialogMessage.initdialog = (none, true)
about (DialogMessage.command wm_id) =
    if wm_id == 1 || wm_id == 2 then (some wm_id, true) else (none, false)
about DialogMessage.other = (none, false)

unfoldable pub paint_box : DialogMessage → Program → Fault Program
paint_box DialogMessage.initdialog p =
    ok (check_mode normal (check_shape square (check_bg white (check_pen black p))))
paint_box (DialogMessage.command wm_id) p =
    let q = change_dbox wm_id p in
    if wm_id == idc_erase
    then clean_screen (clear_shapes q) >>= (λ calls. ok (draws (clear_shapes q) calls))
    else ok q
paint_box DialogMessage.other p = ok p

-- The structure of InitInstance; `lastBG` is not set there, and is 0 as all that is static.
abbrev pub intial : DrawStr
intial = record {
  current_bg = white;
  current_pen = black;
  current_shape = square;
  mode = normal;
  last_bg = 0;
  shp = no_shapes;
}

-- InitInstance: the paint box is created after the structure is set, and gets WM_INITDIALOG. The menu
-- comes with Normal checked. What is on the clipboard is from before.
unfoldable pub init_instance : Option ShapeCopy → ScrollInfo → Fault Program
init_instance clipboard bar =
    let origin : Point = mouse 0 0 in
    paint_box DialogMessage.initdialog record {
      dstr = intial;
      h_bar = bar;
      v_bar = bar;
      menu = λ j. j == id_mode_normal;
      dialog = λ j. false;
      clipboard = clipboard;
      is_active = false;
      client_right = 0;
      client_bottom = 0;
      horz_pos = pos 0;
      vert_pos = pos 0;
      ms_start = origin;
      ms_previous = origin;
      draw_shape = false;
      p_thread = 0;
      threads = 0;
      is_running = λ t. false;
      is_invalid = false;
      has_quit = false;
      screen = [];
    }

-- What happens to the program: a message of the main window; a control of the paint box that is
-- pressed, which is a check box that turns its mark itself, or the button Erase; another window that
-- becomes active, or the main one again; and another instance of the program that copies.
pub data Event : Type 0 where
  main_window : Message → Event
  press : ℕ → Event
  activate : Bool → Event
  other_copies : ShapeCopy → Event

unfoldable pub pressed : ℕ → Program → Program
pressed wm_id p =
    if is_check_box wm_id
    then record p { dialog = check p.dialog wm_id (not (p.dialog wm_id)) }
    else p

module _ (place : ScrollInfo → ℤ → ℤ) where
  unfoldable pub handle : Event → Program → Fault Program
  handle (main_window m) p = wnd_proc place m p
  handle (press wm_id) p = paint_box (DialogMessage.command wm_id) (pressed wm_id p)
  handle (activate b) p = ok (record p { is_active = b })
  handle (other_copies c) p = ok (record p { clipboard = some c })

  unfoldable pub run : List Event → Program → Fault Program
  run [] p = ok p
  run (e ∷ es) p = handle e p >>= run es
