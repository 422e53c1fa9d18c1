-- ===== src/Shaper/Events.antt =====
-- Each event of the drawing program against the list of shapes: what it makes of the list, and when it
-- is a fault.
use ridingthecode.Common.{
  ℕ, Bool, true, false, not, List, [], ◌∷◌, ◌++◌, ◌==◌, ◌&&◌, if◌then◌else◌, some, ◌≡◌, refl, inl,
  inr, subst, ◌⊎◌,
}
use ridingthecode.Common.Int.{ℤ}
use ridingthecode.Common.Fault.{Fault, ok, fault, ◌>>=◌, ok->>=, fault->>=, >>=_fault}
use ridingthecode.Shaper.Ids
use ridingthecode.Shaper.State.{ShapeCopy, ScrollInfo, Gdi, Program, Point}
use ridingthecode.Shaper.Menu.{invalidate, change_main, is_check_box}
use ridingthecode.Shaper.Scroll.{v_scroll_bar, h_scroll_bar, wm_size}
use ridingthecode.Shaper.Drawing.{
  draws, clean_screen, on_paint, clear_shapes, set_background, client_rect,
}
use ridingthecode.Shaper.Clipboard.{push}
use ridingthecode.Shaper.Window.{
  Message, Event, top_menu, start_party, wnd_proc, paint_box, handle, pressed, mouse,
}
use ridingthecode.Shaper.Refinement.{
  Shows, drawn, clean_screen-ok, clear_shapes-Shows, push-Shows, set_background-Shows,
  paint_selection-ok, index_shapes-push, on_paint-ok,
}
use ridingthecode.Shaper.Selecting.{frame, change_dbox-Shows, change_main-Shows}
use ridingthecode.Shaper.Outcomes.{
  Returns, command_fails, fails, pasted, canvas, IsPlausible, Outcome, returns, Outcome-map,
  Returns-calls, top_menu-Outcome, change_main-same,
}

if-Shows :
    (b : Bool) {p q : Program} {cs : List ShapeCopy}
    → Shows p cs
    → Shows q cs
    → Shows (if b then p else q) cs
if-Shows true s t = s
if-Shows false s t = t

erase_cases :
    (b : Bool) {p : Program} {cs : List ShapeCopy}
    → Shows p cs
    → Returns (set_background p) []
    → Returns (if b then ok p else set_background p) (if b then cs else [])
erase_cases true {p} s r = (p, refl, s)
erase_cases false s r = r

move_cases :
    (b : Bool) (to : Point) {p : Program} {cs : List ShapeCopy} {m : Fault (List Gdi)}
    → Shows p cs
    → (calls : List Gdi) × (m ≡ ok calls)
    → Returns
        (if b
          then m >>= (λ calls. ok (record p { screen = (draws p calls).screen; ms_previous = to }))
          else ok p)
        cs
move_cases true to s (calls, e) = (_, ok->>= _ e, frame _ s refl refl)
move_cases false to {p} s r = (p, refl, s)

paint_event :
    (d a : Bool) {p : Program} {cs : List ShapeCopy} {m : Fault (List Gdi)}
    → ((d ≡ true) ⊎ (a ≡ true) → (calls : List Gdi) × (m ≡ ok calls))
    → (d ≡ false → a ≡ false → m ≡ fault)
    → Shows p cs
    → Outcome
        (not d && not a)
        (m >>= (λ calls. ok (record p { screen = (draws p calls).screen; is_invalid = false })))
        cs
paint_event true a h k s = (_, ok->>= _ (h (inl refl)).1, frame _ s refl refl)
paint_event false true h k s = (_, ok->>= _ (h (inr refl)).1, frame _ s refl refl)
paint_event false false h k s = fault->>= _ (k refl refl)

up_cases :
    (b : Bool) {p : Program} {cs : List ShapeCopy} {m : Fault Program}
    → Shows p cs
    → (calls : List Gdi) × (m ≡ ok (draws (push (drawn p) p) calls))
    → Returns
        (if b then m >>= (λ q. ok (invalidate (record q { draw_shape = false }))) else ok p)
        (if b then cs ++ drawn p ∷ [] else cs)
unfolding drawn
up_cases true {p} s (calls, e) =
    (_, ok->>= _ e, frame _ (push-Shows s (drawn p) (s.mode, s.shape, s.pen)) refl refl)
up_cases false {p} s r = (p, refl, s)

press_cases :
    (b : Bool) {q : Program} {cs : List ShapeCopy}
    → Shows q cs
    → Returns
        (if b
          then clean_screen (clear_shapes q) >>= (λ calls. ok (draws (clear_shapes q) calls))
          else ok q)
        (if b then [] else cs)
press_cases true s = Returns-calls (clean_screen-ok (clear_shapes-Shows s)) (clear_shapes-Shows s)
press_cases false {q} s = (q, refl, s)

start_party-Shows : {p : Program} {cs : List ShapeCopy} → Shows p cs → Shows (start_party p) cs
unfolding start_party
start_party-Shows s = frame _ s refl refl

-- The main window is not active: the structure is not found.
on_paint_inactive : (p : Program) → p.draw_shape ≡ false → p.is_active ≡ false → on_paint p ≡ fault
unfolding on_paint clean_screen client_rect
on_paint_inactive p d a = rw (d, a) (>>=_fault (clean_screen p))

pressed-Shows : (id : ℕ) {p : Program} {cs : List ShapeCopy} → Shows p cs → Shows (pressed id p) cs
unfolding pressed
pressed-Shows id s = if-Shows (is_check_box id) (frame _ s refl refl) s

module _ (place : ScrollInfo → ℤ → ℤ) where
  -- In a program that shows the shapes `cs`, with colours, types and modes that there are, an event
  -- fails exactly if it is a paint of the window while the main window is not active and no shape is
  -- being drawn, a copy while that window is not active or there is no shape, or a paste while it is
  -- not active or no shape is on the clipboard; else the program then shows what `canvas` makes of
  -- the shapes.
  pub handle-Shows :
      (e : Event) (p : Program) (cs : List ShapeCopy)
      → IsPlausible e
      → Shows p cs
      → Outcome (fails e p cs) (handle place e p) (canvas e p cs)
  unfolding handle wnd_proc paint_box fails canvas wm_size h_scroll_bar v_scroll_bar
  handle-Shows (Event.main_window Message.create) p cs e s = (p, refl, s)
  handle-Shows (Event.main_window (Message.size cx cy)) p cs e s = returns _ s refl refl
  handle-Shows (Event.main_window (Message.hscroll code track)) p cs e s = returns _ s refl refl
  handle-Shows (Event.main_window (Message.vscroll code track)) p cs e s = returns _ s refl refl
  handle-Shows (Event.main_window Message.timer) p cs e s = returns _ s refl refl
  handle-Shows (Event.main_window (Message.command id rand)) p cs e s =
      let q = (change_main id p).0 in
      let (active, clipboard) = change_main-same p id in
      Outcome-map _ (top_menu id rand q) (λ q. if id == Ids.id_party then start_party q else q)
        (subst
          (λ b.
            Outcome (command_fails id b p.clipboard cs) (top_menu id rand q)
              (if id == Ids.id_paste then pasted p.clipboard cs else cs))
          active
          (subst
            (λ o.
              Outcome (command_fails id q.is_active o cs) (top_menu id rand q)
                (if id == Ids.id_paste then pasted o cs else cs))
            clipboard (top_menu-Outcome id rand e (change_main-Shows s id))))
        (λ q s'. if-Shows (id == Ids.id_party) (start_party-Shows s') s')
  handle-Shows (Event.main_window Message.erasebkgnd) p cs e s =
      erase_cases (p.dstr.current_bg == p.dstr.last_bg) s (set_background-Shows s)
  handle-Shows (Event.main_window (Message.lbuttondown x y)) p cs e s =
      (_, refl, if-Shows p.draw_shape s (frame _ s refl refl))
  handle-Shows (Event.main_window (Message.mousemove x y)) p cs e s =
      move_cases p.draw_shape (mouse x y) s (paint_selection-ok s)
  handle-Shows (Event.main_window Message.paint) p cs e s =
      paint_event p.draw_shape p.is_active (λ h. let (before, r) = on_paint-ok s h in (_, r))
        (on_paint_inactive p) s
  handle-Shows (Event.main_window Message.lbuttonup) p cs e s =
      up_cases p.draw_shape s (index_shapes-push s)
  handle-Shows (Event.main_window Message.destroy) p cs e s = returns _ s refl refl
  handle-Shows (Event.main_window Message.other) p cs e s = (p, refl, s)
  handle-Shows (Event.press id) p cs e s =
      press_cases (id == Ids.idc_erase) (change_dbox-Shows (pressed-Shows id s) id)
  handle-Shows (Event.activate b) p cs e s = returns _ s refl refl
  handle-Shows (Event.other_copies c) p cs e s = (
    record p { clipboard = some c },
    refl,
    record {
      is_columns = s.is_columns;
      in_range = s.in_range;
      pen = s.pen;
      bg = s.bg;
      shape = s.shape;
      mode = s.mode;
      copied = e;
    },
  )
