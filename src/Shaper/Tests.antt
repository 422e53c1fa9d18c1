-- ===== src/Shaper/Tests.antt =====
-- The theorems on the drawing program at concrete inputs.
use ridingthecode.Common.{
  true, false, List, [], ◌∷◌, ◌++◌, if◌then◌else◌, none, some, arith, ◌≡◌, refl,
}
use ridingthecode.Common.Int.{ℤ, pos, ltb_ℤ, ◌+ℤ◌, ◌-ℤ◌}
use ridingthecode.Common.Fault.{ok, ◌>>=◌, OnOk}
use ridingthecode.Shaper.Ids
use ridingthecode.Shaper.State.{ShapeCopy, ScrollInfo, Gdi, Program}
use ridingthecode.Shaper.Scroll.{v_wanted}
use ridingthecode.Shaper.Window.{Message, Event, mouse, handle, run, init_instance}
use ridingthecode.Shaper.Canvas.{columns}
use ridingthecode.Shaper.Refinement.{Shows, last_of}
use ridingthecode.Shaper.Outcomes.{Outcome, fails, canvas}
use ridingthecode.Shaper.Events.{handle-Shows}
use ridingthecode.Shaper.Runs.{IsSound, run-InSync}
use ridingthecode.Shaper.Painting.{
  mouse_moves, stroke, mouse_box, shifted, drag_in_place, drag_after_vscroll, copy-paste,
}

-- A scroll bar that keeps what it is asked for inside its range, as SetScrollInfo is documented to do.
place : ScrollInfo → ℤ → ℤ
place si p =
    let last = si.n_max -ℤ (si.n_page -ℤ pos 1) in
    if ltb_ℤ p si.n_min then si.n_min else if ltb_ℤ last p then last else p

abbrev bar : ScrollInfo
bar = record { n_min = pos 0; n_max = pos 1000; n_page = pos 35; n_pos = pos 10 }

abbrev disc : ShapeCopy
disc = record {
  mode = 0;
  type = 1;
  pen = 2;
  shape = record { left = pos 1; top = pos 2; right = pos 30; bottom = pos 40 };
}

-- One circle is drawn, and both bars stand at 10.
abbrev program : Program
program = record {
  dstr = record {
    current_pen = 3;
    current_bg = 4;
    last_bg = 4;
    current_shape = 0;
    mode = 0;
    shp = columns (disc ∷ []);
  };
  h_bar = bar;
  v_bar = bar;
  menu = λ j. false;
  dialog = λ j. false;
  clipboard = none;
  is_active = true;
  client_right = 640;
  client_bottom = 480;
  horz_pos = pos 10;
  vert_pos = pos 10;
  ms_start = mouse 0 0;
  ms_previous = mouse 0 0;
  draw_shape = false;
  p_thread = 0;
  threads = 0;
  is_running = λ t. false;
  is_invalid = false;
  has_quit = false;
  screen = [];
}

program-Shows : Shows program (disc ∷ [])
program-Shows = record {
  is_columns = refl;
  in_range = omega arith;
  pen = omega arith;
  bg = omega arith;
  shape = omega arith;
  mode = omega arith;
  copied = tt;
}

abbrev erase : Event
erase = Event.press Ids.idc_erase

handle-Shows_example :
    Outcome
      (fails erase program (disc ∷ []))
      (handle place erase program)
      (canvas erase program (disc ∷ []))
handle-Shows_example = handle-Shows place erase program (disc ∷ []) tt program-Shows

abbrev afternoon : List Event
afternoon =
    Event.activate true
    ∷ Event.main_window (Message.command Ids.id_background_red (λ k. 0))
    ∷ Event.main_window Message.erasebkgnd
    ∷ Event.press Ids.idc_pen_green
    ∷ []

run-InSync_example : OnOk IsSound (init_instance (some disc) bar >>= run place afternoon)
run-InSync_example =
    run-InSync place (some disc) bar afternoon (omega arith)
      (tt, (λ k. omega arith, (tt, (tt, tt))))

drag_in_place_example :
    (q : Program) × (before : List Gdi) × (run place (mouse_moves 5 6 50 60) program ≡ ok q)
    × (q.screen ≡ before ++ stroke program (mouse_box 5 6 50 60))
drag_in_place_example =
    drag_in_place place program (disc ∷ []) 5 6 50 60 program-Shows refl refl refl refl refl

drag_after_vscroll_example :
    (q : Program) × (before : List Gdi) × (run place
        (Event.main_window (Message.vscroll 1 (pos 0)) ∷ mouse_moves 5 6 50 60)
        program
      ≡ ok q)
    × (q.screen
        ≡ before
          ++ stroke program record {
            left = shifted 5 (pos 10) (pos 10);
            top = shifted 6 (pos 10) (place bar (v_wanted bar 1 (pos 0)));
            right = shifted 50 (pos 10) (pos 10);
            bottom = shifted 60 (pos 10) (place bar (v_wanted bar 1 (pos 0)));
          })
drag_after_vscroll_example =
    drag_after_vscroll place program (disc ∷ []) 1 (pos 0) 5 6 50 60 program-Shows refl refl refl

copy-paste_example :
    (q : Program) × (run place
        (Event.main_window (Message.command Ids.id_copy (λ k. 0))
          ∷ Event.main_window (Message.command Ids.id_paste (λ k. 0))
          ∷ [])
        program
      ≡ ok q)
    × Shows q (disc ∷ disc ∷ [])
unfolding last_of
copy-paste_example =
    copy-paste place (λ k. 0) (λ k. 0) program (disc ∷ []) disc program-Shows refl refl

-- The position that one line down asks for, and a bar at its end.
line_down : place bar (v_wanted bar 1 (pos 0)) ≡ pos 11
unfolding place v_wanted ◌+ℤ◌ ◌-ℤ◌
line_down = refl

page_down_at_end :
    place (record bar { n_pos = pos 960 }) (v_wanted (record bar { n_pos = pos 960 }) 3 (pos 0))
    ≡ pos 966
unfolding place v_wanted ◌+ℤ◌ ◌-ℤ◌
page_down_at_end = refl
