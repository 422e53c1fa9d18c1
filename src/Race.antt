-- ===== src/Race.antt =====
-- The race of ExtremeRacing/ExtremeRacing/Race.cpp: five cars, each a thread, and the window that starts
-- them and announces the winner.
mod Tests
pub mod Section
pub mod Calm
pub mod Winner
use ridingthecode.Common.{
  ℕ, suc, ◌+◌, ◌/◌, Bool, true, false, List, [], ◌∷◌, Option, none, some, ◌==◌, ltb, leb,
  if◌then◌else◌,
}

-- Where a thread stands in startCar: not resumed yet, in the round of a number, behind the loop, at the
-- test of `winner`, in SendMessage, at the assignment of `winner`, before the section is left, returned.
pub data Phase : Type 0 where
  suspended : Phase
  driving : ℕ → Phase
  at_line : Phase
  testing : Phase
  sending : Phase
  setting : Phase
  leaving : Phase
  returned : Phase

-- The variables of the program. `cs` is the thread inside the critical section, `announced` the cars
-- that a message box has called the winner, the last one first, and `quit` and `quit2` say that these
-- events were set. `destroyed` says that the window is gone.
pub record Race : Type 0 where
  pub cx_client : ℕ
  pub cy_client : ℕ
  pub global : Bool
  pub winner : Bool
  pub wnd_exit_0 : Bool
  pub wnd_exit_1 : Bool
  pub cs : Option ℕ
  pub cars : ℕ → Phase
  pub announced : List ℕ
  pub quit : Bool
  pub quit2 : Bool
  pub destroyed : Bool

-- An event of a start window that a wait returned, if any.
pub data Waited : Type 0 where
  start_race_1 : Waited
  start_race_2 : Waited
  timeout : Waited

unfoldable pub started : Waited → Race → Race
started w r = record r {
  wnd_exit_0 = elim w [ start_race_1 ↦ true | _ ↦ r.wnd_exit_0 ];
  wnd_exit_1 = elim w [ start_race_2 ↦ true | _ ↦ r.wnd_exit_1 ];
}

-- The variables at the start, and WinMain up to its window: the wait returns one of the two events.
unfoldable pub win_main : Waited → Race
win_main w = started w record {
  cx_client = 800;
  cy_client = 600;
  global = false;
  winner = false;
  wnd_exit_0 = false;
  wnd_exit_1 = false;
  cs = none;
  cars = λ c. suspended;
  announced = [];
  quit = false;
  quit2 = false;
  destroyed = false;
}

-- ResumeThread: a thread that runs already stays as it is.
unfoldable pub resumed : Phase → Phase
resumed suspended = driving 0
resumed phase = phase

unfoldable pub resume_all : (ℕ → Phase) → ℕ → Phase
resume_all cars c = if ltb c 5 then resumed (cars c) else cars c

pub data Message : Type 0 where
  create : Message
  size : ℕ → ℕ → Message
  paint : Message
  race_condition_true : ℕ → Message
  rbuttondown : Message
  lbuttondown : Message
  destroy : Message
  other : Message

-- The cases of WndProc. The parameter of RACE_CONDITION_TRUE is the number of the car's button.
unfoldable pub dispatch : Message → Race → Race
dispatch create r = record r { cars = λ c. suspended }
dispatch (size cx cy) r = record r { cx_client = cx; cy_client = cy }
dispatch paint r = r
dispatch (race_condition_true c) r = if ltb c 5 then record r { announced = c ∷ r.announced } else r
dispatch rbuttondown r = record r { global = true; cs = none; cars = resume_all r.cars }
dispatch lbuttondown r = record r { cars = resume_all r.cars }
dispatch destroy r = record r {
  destroyed = true;
  quit = if r.wnd_exit_0 then true else r.quit;
  quit2 = if r.wnd_exit_1 then true else r.quit2;
}
dispatch other r = r

-- WndProc: every message first polls the events of the start windows. After WM_DESTROY the window gets no
-- message any more: PostQuitMessage ends the loop of WinMain, and a SendMessage to it fails at once.
unfoldable pub wnd_proc : Waited → Message → Race → Race
wnd_proc w m r = if r.destroyed then r else dispatch m (started w r)

unfoldable pub set_car : ℕ → Phase → Race → Race
set_car c phase r = record r { cars = λ d. if d == c then phase else r.cars d }

-- The critical section of a thread that waits for it.
unfoldable pub enter : ℕ → Option ℕ → Race → Option Race
enter c none r = some (set_car c testing (record r { cs = some c }))
enter c (some d) r = none

-- A step of the thread of a car that stands at a phase: none where it cannot run. SendMessage has the
-- message handled while it waits; the poll of the start windows there is `w`.
unfoldable pub start_car : Waited → ℕ → Phase → Race → Option Race
start_car w c suspended r = none
start_car w c (driving i) r =
    some (if leb i (r.cx_client / 2) then set_car c (driving (suc i)) r else set_car c at_line r)
start_car w c at_line r = if r.global then enter c r.cs r else some (set_car c testing r)
start_car w c testing r = some (if r.winner then set_car c setting r else set_car c sending r)
start_car w c sending r = some (set_car c setting (wnd_proc w (race_condition_true c) r))
start_car w c setting r = some (set_car c leaving (record r { winner = true }))
start_car w c leaving r = some (set_car c returned (if r.global then record r { cs = none } else r))
start_car w c returned r = none

-- One event: the window gets a message, or the scheduler runs the thread of a car for a step.
pub data Event : Type 0 where
  message : Waited → Message → Event
  thread : Waited → ℕ → Event

unfoldable pub or_else : Option Race → Race → Race
or_else none r = r
or_else (some r') r = r'

-- A thread that cannot run leaves all as it is. The threads end with the process, which is some time after
-- the window is destroyed: there a run just ends.
unfoldable pub step : Event → Race → Race
step (message w m) r = wnd_proc w m r
step (thread w c) r = or_else (start_car w c (r.cars c) r) r

unfoldable pub run : List Event → Race → Race
run [] r = r
run (e ∷ es) r = run es (step e r)
