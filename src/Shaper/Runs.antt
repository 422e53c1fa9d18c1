-- ===== src/Shaper/Runs.antt =====
-- Whole runs of the drawing program, from InitInstance on: every sequence of events.
use ridingthecode.Common.{Bool, true, false, List, [], ◌∷◌, Option, arith, refl, sym, subst}
use ridingthecode.Common.Int.{ℤ}
use ridingthecode.Common.Fault.{Fault, ok, fault, ◌>>=◌, OnOk, >>=-OnOk}
use ridingthecode.Shaper.State.{ShapeCopy, ScrollInfo, Program}
use ridingthecode.Shaper.Menu.{check_mode, check_pen, check_bg, check_shape}
use ridingthecode.Shaper.Menu.Sync.{InSync, menu_mark, dialog_mark}
use ridingthecode.Shaper.Window.{Event, paint_box, handle, run, init_instance}
use ridingthecode.Shaper.Refinement.{Shows, OnSome}
use ridingthecode.Shaper.Outcomes.{IsPlausible, Outcome, fails, canvas}
use ridingthecode.Shaper.Events.{handle-Shows}
use ridingthecode.Shaper.Marks.{handle-InSync}

abbrev pub ArePlausible : List Event → Type 0
ArePlausible [] = Unit {0}
ArePlausible (e ∷ es) = IsPlausible e × ArePlausible es

-- It shows some shapes, and its marks are in sync.
abbrev pub IsSound : Program → Type 0
IsSound p = ((cs : List ShapeCopy) × Shows p cs) × InSync p

init_instance-IsSound :
    (clipboard : Option ShapeCopy) (bar : ScrollInfo)
    → OnSome clipboard
    → OnOk IsSound (init_instance clipboard bar)
unfolding init_instance paint_box check_mode check_pen check_bg check_shape menu_mark dialog_mark
init_instance-IsSound clipboard bar c = (
  (
    [],
    record {
      is_columns = refl;
      in_range = tt;
      pen = omega arith;
      bg = omega arith;
      shape = omega arith;
      mode = omega arith;
      copied = c;
    },
  ),
  record { of_menu = λ j. ground arith; of_dialog = λ j. ground arith },
)

Outcome-OnOk :
    (b : Bool) (m : Fault Program) (cs : List ShapeCopy)
    → Outcome b m cs
    → OnOk (λ q. (ds : List ShapeCopy) × Shows q ds) m
Outcome-OnOk true m cs h = subst (OnOk (λ q. (ds : List ShapeCopy) × Shows q ds)) (sym h) tt
Outcome-OnOk false m cs (q, e, s) =
    subst (OnOk (λ q. (ds : List ShapeCopy) × Shows q ds)) (sym e) (cs, s)

OnOk-and :
    (P Q : Program → Type 0) (m : Fault Program) → OnOk P m → OnOk Q m → OnOk (λ q. P q × Q q) m
OnOk-and P Q (ok q) h k = (h, k)
OnOk-and P Q fault h k = tt

module _ (place : ScrollInfo → ℤ → ℤ) where
  handle-IsSound :
      (e : Event) (p : Program) → IsPlausible e → IsSound p → OnOk IsSound (handle place e p)
  handle-IsSound e p w ((cs, s), m) =
      OnOk-and (λ q. (ds : List ShapeCopy) × Shows q ds) InSync (handle place e p)
        (Outcome-OnOk (fails e p cs) (handle place e p) (canvas e p cs)
          (handle-Shows place e p cs w s))
        (handle-InSync place e p (record { pen = s.pen; bg = s.bg; shape = s.shape; mode = s.mode })
          m)

  pub run-IsSound :
      (es : List Event) (p : Program) → ArePlausible es → IsSound p → OnOk IsSound (run place es p)
  unfolding run
  run-IsSound [] p w h = h
  run-IsSound (e ∷ es) p w h =
      >>=-OnOk IsSound IsSound (handle place e p) (run place es) (handle-IsSound e p w.0 h)
        (λ q k. run-IsSound es q w.1 k)

  -- From the start of the program, with no shape on the clipboard or one that can be drawn, and after
  -- any events that are plausible and are no fault, the four vectors are the columns of one list of
  -- shapes, with modes, types and colours that there are; and the controls that are checked in the
  -- menu and in the paint box are those of the current pen, background, shape and mode.
  pub run-InSync :
      (clipboard : Option ShapeCopy) (bar : ScrollInfo) (es : List Event)
      → OnSome clipboard
      → ArePlausible es
      → OnOk IsSound (init_instance clipboard bar >>= run place es)
  run-InSync clipboard bar es c w =
      >>=-OnOk IsSound IsSound (init_instance clipboard bar) (run place es)
        (init_instance-IsSound clipboard bar c) (λ p h. run-IsSound es p w h)
