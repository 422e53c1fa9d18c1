-- ===== src/Shaper/Painting.antt =====
-- Where a shape appears on the screen after it is drawn with the mouse, what a copied shape becomes,
-- and what the scroll bars store.
use ridingthecode.Common.{
  ℕ, ◌==◌, ==_refl, true, false, List, [], ◌∷◌, ◌++◌, some, arith, ◌≡◌, refl, ap, ◌∙◌, inr,
  append_assoc, append-nil, get_or, subst, if_false, if_true,
}
use ridingthecode.Common.Int.{ℤ, pos, ◌+ℤ◌, ◌-ℤ◌}
use ridingthecode.Common.Fault.{ok, ok->>=, fault}
use ridingthecode.Shaper.Ids
use ridingthecode.Shaper.State.{Rect, ShapeCopy, ScrollInfo, Gdi, Program}
use ridingthecode.Shaper.State.Gdi.{dc_brush_color, rop2}
use ridingthecode.Shaper.Scroll.{v_scroll_bar, v_wanted}
use ridingthecode.Shaper.Menu.{invalidate, change_main}
use ridingthecode.Shaper.Drawing.{set_background, draws, outline, adjusted, get_colors, get_modes}
use ridingthecode.Shaper.Clipboard.{push, get_clipboard, paste, set_clipboard}
use ridingthecode.Shaper.Window.{Message, Event, mouse, wnd_proc, handle, run, top_menu}
use ridingthecode.Shaper.Canvas.{InRange, picture, picture-append, painted, AllInRange}
use ridingthecode.Shaper.Refinement.{
  Shows, drawn, last_of, on_paint-ok, paint_selection-ok, index_shapes-push, push-Shows,
  set_clipboard-last,
}
use ridingthecode.Shaper.Selecting.{frame}

-- A point of the mouse after it is stored at one scroll position and painted at another.
pub shifted : ℕ → ℤ → ℤ → ℤ
shifted x stored shown = (pos x +ℤ stored) -ℤ shown

-- The box from one point of the mouse to another, as the program paints it.
pub box : Program → ℕ → ℕ → ℕ → ℕ → Rect
box p x y x' y' = record {
  left = shifted x p.horz_pos p.h_bar.n_pos;
  top = shifted y p.vert_pos p.v_bar.n_pos;
  right = shifted x' p.horz_pos p.h_bar.n_pos;
  bottom = shifted y' p.vert_pos p.v_bar.n_pos;
}

pub mouse_box : ℕ → ℕ → ℕ → ℕ → Rect
mouse_box x y x' y' = record { left = pos x; top = pos y; right = pos x'; bottom = pos y' }

in_place : (x : ℕ) {stored shown : ℤ} → stored ≡ shown → shifted x stored shown ≡ pos x
unfolding shifted ◌+ℤ◌ ◌-ℤ◌
in_place x {stored} {shown} e = rw e (ground arith)

-- The calls that paint a box in the current pen, mode and shape.
pub stroke : Program → Rect → List Gdi
stroke p rect =
    dc_brush_color (get_or get_colors p.dstr.current_pen (0, 0, 0))
    ∷ rop2 (get_or get_modes p.dstr.mode 0)
    ∷ outline p.dstr.current_shape rect

ok_injective : {c d : ShapeCopy} → ok c ≡ ok d → c ≡ d
ok_injective e = cc

last-InRange : (cs : List ShapeCopy) {c : ShapeCopy} → AllInRange cs → last_of cs ≡ ok c → InRange c
unfolding last_of
last-InRange [] r e = cc
last-InRange (d ∷ []) r e = subst InRange (ok_injective e) r.0
last-InRange (d ∷ d' ∷ ds) r e = last-InRange (d' ∷ ds) r.1 e

-- the paint with the erasing before it
up_then_paint : List Event
up_then_paint =
    Event.main_window Message.lbuttonup
    ∷ Event.main_window Message.erasebkgnd
    ∷ Event.main_window Message.paint
    ∷ []

pub mouse_moves : ℕ → ℕ → ℕ → ℕ → List Event
mouse_moves x y x' y' =
    Event.main_window (Message.lbuttondown x y)
    ∷ Event.main_window (Message.mousemove x' y')
    ∷ up_then_paint

module _ (place : ScrollInfo → ℤ → ℤ) where
  -- The shape that is being drawn comes last in the next picture.
  up_paints :
      (p : Program) (cs : List ShapeCopy)
      → Shows p cs
      → p.is_active ≡ true
      → p.dstr.current_bg ≡ p.dstr.last_bg
      → p.draw_shape ≡ true
      → (q : Program) × (before : List Gdi) × (run place up_then_paint p ≡ ok q)
        × (q.screen ≡ before ++ painted p.h_bar.n_pos p.v_bar.n_pos (drawn p))
  unfolding up_then_paint run handle wnd_proc picture drawn push
  up_paints p cs s active bg drawing =
      let (calls, e) = index_shapes-push s in
      let p1 : Program =
        invalidate (record (draws (push (drawn p) p) calls) { draw_shape = false }) in
      let s1 : Shows p1 (cs ++ drawn p ∷ []) =
        frame p1 (push-Shows s (drawn p) (s.mode, s.shape, s.pen)) refl refl in
      let (before, e1) = on_paint-ok s1 (inr active) in
      (
        record p1 {
          screen =
              (draws p1
                (before ++ picture p.h_bar.n_pos p.v_bar.n_pos (cs ++ drawn p ∷ []))).screen;
          is_invalid = false;
        },
        p1.screen ++ (before ++ picture p.h_bar.n_pos p.v_bar.n_pos cs),
        ok->>= _ (if_true _ (ok p) drawing ∙ ok->>= _ e)
            ∙ ok->>= _ (
                if_true (ok p1) (set_background p1)
                  (subst (λ b. (p.dstr.current_bg == b) ≡ true) bg (==_refl p.dstr.current_bg)))
            ∙ ok->>= _ (ok->>= _ e1),
        ap (λ t. p1.screen ++ (before ++ t))
              (picture-append p.h_bar.n_pos p.v_bar.n_pos cs (drawn p ∷ [])
                ∙ ap (λ t. picture p.h_bar.n_pos p.v_bar.n_pos cs ++ t)
                    (append-nil (painted p.h_bar.n_pos p.v_bar.n_pos (drawn p))))
            ∙ simp append_assoc,
      )

  -- The box between two points of the mouse, shifted from the positions that are stored to those shown.
  pub drag_paints :
      (p : Program) (cs : List ShapeCopy) (x y x' y' : ℕ)
      → Shows p cs
      → p.is_active ≡ true
      → p.dstr.current_bg ≡ p.dstr.last_bg
      → p.draw_shape ≡ false
      → (q : Program) × (before : List Gdi) × (run place (mouse_moves x y x' y') p ≡ ok q)
        × (q.screen ≡ before ++ stroke p (box p x y x' y'))
  unfolding mouse_moves run handle wnd_proc box stroke shifted painted drawn adjusted
  drag_paints p cs x y x' y' s active bg rest =
      let p1 : Program = record p {
        draw_shape = true;
        ms_previous = mouse x y;
        ms_start = mouse x y;
      } in
      let s1 : Shows p1 cs = frame p1 s refl refl in
      let (calls, e1) = paint_selection-ok s1 in
      let p2 : Program = record p1 { screen = p.screen ++ calls; ms_previous = mouse x' y' } in
      let s2 : Shows p2 cs = frame p2 s refl refl in
      let (q, before, e, h) = up_paints p2 cs s2 active bg refl in
      (
        q,
        before,
        ap (run place (Event.main_window (Message.mousemove x' y') ∷ up_then_paint))
              (if_false p p1 rest)
            ∙ ok->>= (run place up_then_paint) (ok->>= _ e1)
            ∙ e,
        h,
      )

  -- In a program that shows some shapes, with the main window active, the current background on the
  -- screen, no shape being drawn and the positions of both scroll bars stored as they are, the mouse that
  -- goes down at one point, moves to another and goes up is no fault, and the paint that follows, with its
  -- erasing, ends with the current shape, in the
  -- current pen and mode, in the box between the two points.
  pub drag_in_place :
      (p : Program) (cs : List ShapeCopy) (x y x' y' : ℕ)
      → Shows p cs
      → p.is_active ≡ true
      → p.dstr.current_bg ≡ p.dstr.last_bg
      → p.draw_shape ≡ false
      → p.horz_pos ≡ p.h_bar.n_pos
      → p.vert_pos ≡ p.v_bar.n_pos
      → (q : Program) × (before : List Gdi) × (run place (mouse_moves x y x' y') p ≡ ok q)
        × (q.screen ≡ before ++ stroke p (mouse_box x y x' y'))
  unfolding mouse_box box
  drag_in_place p cs x y x' y' s active bg rest h v =
      let (q, before, e, w) = drag_paints p cs x y x' y' s active bg rest in
      (
        q,
        before,
        e,
        w
            ∙ ap (λ r. before ++ stroke p r)
                (λ i. record {
                  left = in_place x h i;
                  top = in_place y v i;
                  right = in_place x' h i;
                  bottom = in_place y' v i;
                }),
      )

  -- In a program that shows some shapes, with the main window active, the current background on the
  -- screen and no shape being drawn, a message of the vertical scroll bar stores the position that the bar had before it: a shape that is
  -- then drawn with the mouse is painted with its top and bottom shifted from the mouse by that
  -- position less the new one.
  pub drag_after_vscroll :
      (p : Program) (cs : List ShapeCopy) (code : ℕ) (track : ℤ) (x y x' y' : ℕ)
      → Shows p cs
      → p.is_active ≡ true
      → p.dstr.current_bg ≡ p.dstr.last_bg
      → p.draw_shape ≡ false
      → (q : Program) × (before : List Gdi) × (run place
            (Event.main_window (Message.vscroll code track) ∷ mouse_moves x y x' y')
            p
          ≡ ok q)
        × (q.screen
            ≡ before
              ++ stroke p record {
                left = shifted x p.horz_pos p.h_bar.n_pos;
                top = shifted y p.v_bar.n_pos (place p.v_bar (v_wanted p.v_bar code track));
                right = shifted x' p.horz_pos p.h_bar.n_pos;
                bottom = shifted y' p.v_bar.n_pos (place p.v_bar (v_wanted p.v_bar code track));
              })
  unfolding run handle wnd_proc v_scroll_bar box stroke
  drag_after_vscroll p cs code track x y x' y' s active bg rest =
      let (r, vert_pos) = v_scroll_bar place code track p in
      let p1 : Program = record r { vert_pos = vert_pos } in
      drag_paints p1 cs x y x' y' (frame p1 s refl refl) active bg rest

  -- In a program that shows some shapes, the last of them `c`, with the main window active, Copy and
  -- then Paste are no fault, and add `c` once more at the end.
  pub copy-paste :
      (rand rand' : ℕ → ℕ) (p : Program) (cs : List ShapeCopy) (c : ShapeCopy)
      → Shows p cs
      → p.is_active ≡ true
      → last_of cs ≡ ok c
      → (q : Program) × (run place
            (Event.main_window (Message.command Ids.id_copy rand)
              ∷ Event.main_window (Message.command Ids.id_paste rand')
              ∷ [])
            p
          ≡ ok q)
        × Shows q (cs ++ c ∷ [])
  unfolding run handle wnd_proc change_main top_menu get_clipboard paste push
  copy-paste rand rand' p cs c s active e =
      let p1 : Program = record p { clipboard = some c } in
      let s1 : Shows p1 cs = record {
        is_columns = s.is_columns;
        in_range = s.in_range;
        pen = s.pen;
        bg = s.bg;
        shape = s.shape;
        mode = s.mode;
        copied = last-InRange cs s.in_range e;
      } in
      let copied : set_clipboard p ≡ ok p1 =
        set_clipboard-last s ∙ ok->>= _ (if_true (last_of cs) fault active ∙ e) in
      let q : Program = invalidate (push c p1) in
      let r : Shows q (cs ++ c ∷ []) = frame q (push-Shows s1 c s1.copied) refl refl in
      (q, ok->>= _ (ok->>= _ copied) ∙ ok->>= _ (ok->>= _ (if_true (ok q) fault active)), r)
