-- ===== src/Shaper/Marks.antt =====
-- The menu and the paint box of the drawing program stay in sync on every event, from WM_INITDIALOG on.
use ridingthecode.Common.{
  none, ℕ, Bool, true, false, ◌==◌, if◌then◌else◌, arith, ◌≡◌, refl, Option, some, ap, not, subst,
  sym,
}
use ridingthecode.Common.Int.{ℤ}
use ridingthecode.Common.Fault.{ok, fault, ◌>>=◌, OnOk, >>=-OnOk, OnOk-if, OnOk-map}
use ridingthecode.Shaper.Ids
use ridingthecode.Shaper.State.{ScrollInfo, ShapeCopy, Program}
use ridingthecode.Shaper.Scroll.{v_scroll_bar, h_scroll_bar, wm_size}
use ridingthecode.Shaper.Menu.{check, change_main, change_dbox, is_check_box}
use ridingthecode.Shaper.Menu.Cases.{change_dbox-cases, change_main-cases}
use ridingthecode.Shaper.Menu.Sync.{
  HasSelections, SyncBut, InSync, InSync-frame, InSync-SyncBut, check_pen-InSync, check_bg-InSync,
  check_shape-InSync, check_mode-InSync, menu_mark, dialog_mark,
}
use ridingthecode.Shaper.Drawing.{
  clear_shapes, set_background, index_shapes, draws, clean_screen, mini_party, on_paint,
}
use ridingthecode.Shaper.Clipboard.{set_clipboard, get_clipboard, paste, push}
use ridingthecode.Shaper.Window.{
  Message, Event, top_menu, start_party, wnd_proc, paint_box, handle, pressed,
}

-- Nothing that the marks depend on is another.
Alike : Program → Program → Type 0
Alike p q =
    (q.menu ≡ p.menu)
    × (q.dialog ≡ p.dialog)
    × (q.dstr.current_pen ≡ p.dstr.current_pen)
    × (q.dstr.current_bg ≡ p.dstr.current_bg)
    × (q.dstr.current_shape ≡ p.dstr.current_shape)
    × (q.dstr.mode ≡ p.dstr.mode)

Alike-InSync : {p q : Program} → InSync p → Alike p q → InSync q
unfolding Alike menu_mark dialog_mark
Alike-InSync {p} {q} s (m, d, a, b, c, e) =
    InSync-frame q s m d (λ j. rw (a, b, c, e) refl) (λ j. rw (a, b, c, e) refl)

top_menu-Alike : (id : ℕ) (rand : ℕ → ℕ) (p : Program) → OnOk (Alike p) (top_menu id rand p)
unfolding top_menu set_clipboard get_clipboard paste push Alike
top_menu-Alike id rand p =
    OnOk-if (Alike p) (id == Ids.id_mini_party) _ _
      (OnOk-map (Alike p) (mini_party rand p) (draws p) (λ _. (refl, refl, refl, refl, refl, refl)))
      (OnOk-if (Alike p) (id == Ids.id_copy) _ _
        (OnOk-map (Alike p) _ (λ c. record p { clipboard = some c })
          (λ _. (refl, refl, refl, refl, refl, refl)))
        (OnOk-if (Alike p) (id == Ids.id_paste) _ _ (pasted p.is_active p.clipboard)
          (refl, refl, refl, refl, refl, refl)))
  where
    pasted : (b : Bool) (o : Option ShapeCopy) → OnOk (Alike p) (if b then paste o p else fault)
    pasted true none = tt
    pasted true (some c) = (refl, refl, refl, refl, refl, refl)
    pasted false o = tt

change_main-InSync :
    (id : ℕ) {p : Program} → HasSelections p.dstr → InSync p → InSync (change_main id p).0
unfolding Alike
change_main-InSync id {p} r s =
    change_main-cases InSync p id (λ n h. check_mode-InSync n r h (InSync-SyncBut _ s))
      (λ n h. check_pen-InSync n r h (InSync-SyncBut _ s))
      (λ n h.
        Alike-InSync (check_bg-InSync n r h (InSync-SyncBut _ s))
          (refl, refl, refl, refl, refl, refl))
      (λ n h. check_shape-InSync n r h (InSync-SyncBut _ s)) s
      (Alike-InSync s (refl, refl, refl, refl, refl, refl))

-- A check box that was pressed has turned its own mark.
pressed-SyncBut : (id : ℕ) {p : Program} → InSync p → SyncBut id (pressed id p)
unfolding pressed
pressed-SyncBut id {p} s = turned (is_check_box id)
  where
    turned :
        (b : Bool)
        → SyncBut id (if b then record p { dialog = check p.dialog id (not (p.dialog id)) } else p)
    turned true = record { of_menu = s.of_menu; of_dialog = λ j n. ground (arith, s.of_dialog j) }
    turned false = InSync-SyncBut id s

pressed-HasSelections :
    (id : ℕ) (p : Program) → HasSelections p.dstr → HasSelections (pressed id p).dstr
unfolding pressed
pressed-HasSelections id p r = turned (is_check_box id)
  where
    turned :
        (b : Bool)
        → HasSelections
            (if b then record p { dialog = check p.dialog id (not (p.dialog id)) } else p).dstr
    turned true = r
    turned false = r

pressed_other : (id : ℕ) {p : Program} → is_check_box id ≡ false → pressed id p ≡ p
unfolding pressed
pressed_other id {p} e =
    ap (λ b. if b then record p { dialog = check p.dialog id (not (p.dialog id)) } else p) e

change_dbox-InSync :
    (id : ℕ) {p : Program}
    → HasSelections p.dstr
    → InSync p
    → InSync (change_dbox id (pressed id p))
unfolding Alike
change_dbox-InSync id {p} r s =
    let r' = pressed-HasSelections id p r in
    let s' = pressed-SyncBut id s in
    change_dbox-cases InSync (pressed id p) id
      (λ n h e. check_mode-InSync n r' h (subst (λ k. SyncBut k (pressed id p)) e s'))
      (λ n h e. check_pen-InSync n r' h (subst (λ k. SyncBut k (pressed id p)) e s'))
      (λ n h e.
        Alike-InSync (check_bg-InSync n r' h (subst (λ k. SyncBut k (pressed id p)) e s'))
          (refl, refl, refl, refl, refl, refl))
      (λ n h e. check_shape-InSync n r' h (subst (λ k. SyncBut k (pressed id p)) e s'))
      (λ e. subst InSync (sym (pressed_other id e)) s)

InSync-if : (b : Bool) {p q : Program} → InSync p → InSync q → InSync (if b then p else q)
InSync-if true s t = s
InSync-if false s t = t

-- A command first selects, and then does what it stands for in the menu.
command-InSync :
    (id : ℕ) (rand : ℕ → ℕ) {q : Program}
    → InSync q
    → OnOk InSync
        (top_menu id rand q >>= (λ t. ok (if id == Ids.id_party then start_party t else t)))
unfolding Alike start_party
command-InSync id rand {q} s =
    >>=-OnOk (Alike q) InSync (top_menu id rand q) _ (top_menu-Alike id rand q) (λ t a.
      InSync-if (id == Ids.id_party)
        (Alike-InSync (Alike-InSync {q = t} s a) (refl, refl, refl, refl, refl, refl))
        (Alike-InSync s a))

-- After any event that is no fault, the pen, the background, the shape and the mode that are selected
-- are checked in the menu and in the paint box, and no other control is.
module _ (place : ScrollInfo → ℤ → ℤ) where
  pub handle-InSync :
      (e : Event) (p : Program) → HasSelections p.dstr → InSync p → OnOk InSync (handle place e p)
  unfolding handle wnd_proc paint_box set_background clear_shapes index_shapes h_scroll_bar
      v_scroll_bar wm_size Alike
  handle-InSync (Event.main_window Message.create) p r s = s
  handle-InSync (Event.main_window (Message.size cx cy)) p r s =
      Alike-InSync s (refl, refl, refl, refl, refl, refl)
  handle-InSync (Event.main_window (Message.hscroll code track)) p r s =
      Alike-InSync s (refl, refl, refl, refl, refl, refl)
  handle-InSync (Event.main_window (Message.vscroll code track)) p r s =
      Alike-InSync s (refl, refl, refl, refl, refl, refl)
  handle-InSync (Event.main_window Message.timer) p r s =
      Alike-InSync s (refl, refl, refl, refl, refl, refl)
  handle-InSync (Event.main_window (Message.command id rand)) p r s =
      command-InSync id rand (change_main-InSync id r s)
  handle-InSync (Event.main_window Message.erasebkgnd) p r s =
      OnOk-if InSync (p.dstr.current_bg == p.dstr.last_bg) _ _ s (
        OnOk-map InSync (clean_screen p) _
          (λ _. Alike-InSync s (refl, refl, refl, refl, refl, refl)))
  handle-InSync (Event.main_window (Message.lbuttondown x y)) p r s =
      InSync-if p.draw_shape s (Alike-InSync s (refl, refl, refl, refl, refl, refl))
  handle-InSync (Event.main_window (Message.mousemove x y)) p r s =
      OnOk-if InSync p.draw_shape _ _
        (OnOk-map InSync _ _ (λ _. Alike-InSync s (refl, refl, refl, refl, refl, refl))) s
  handle-InSync (Event.main_window Message.paint) p r s =
      OnOk-map InSync (on_paint p) _ (λ _. Alike-InSync s (refl, refl, refl, refl, refl, refl))
  handle-InSync (Event.main_window Message.lbuttonup) p r s =
      OnOk-if InSync p.draw_shape _ _
        (>>=-OnOk (Alike p) InSync _ _
          (OnOk-map (Alike p) (clean_screen p) _ (λ _. (refl, refl, refl, refl, refl, refl)))
          (λ q a. Alike-InSync (Alike-InSync {q = q} s a) (refl, refl, refl, refl, refl, refl)))
        s
  handle-InSync (Event.main_window Message.destroy) p r s =
      Alike-InSync s (refl, refl, refl, refl, refl, refl)
  handle-InSync (Event.main_window Message.other) p r s = s
  handle-InSync (Event.press id) p r s =
      OnOk-if InSync (id == Ids.idc_erase) _ _
        (OnOk-map InSync _ _
          (λ _. Alike-InSync (change_dbox-InSync id r s) (refl, refl, refl, refl, refl, refl)))
        (change_dbox-InSync id r s)
  handle-InSync (Event.activate b) p r s = Alike-InSync s (refl, refl, refl, refl, refl, refl)
  handle-InSync (Event.other_copies c) p r s = Alike-InSync s (refl, refl, refl, refl, refl, refl)
