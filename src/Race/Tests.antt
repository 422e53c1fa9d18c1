-- ===== src/Race/Tests.antt =====
-- The theorems on the race at a concrete schedule, and two races that run.
use ridingthecode.Common.{List, [], ◌∷◌, ◌++◌, arith, ◌≡◌, refl, length, replicate, ◌≤◌}
use ridingthecode.Race.{
  Race, timeout, start_race_1, win_main, started, Message, Event, message, thread, run, step,
  wnd_proc, dispatch, start_car, or_else, enter, set_car, resumed, resume_all,
}
use ridingthecode.Race.Winner.{one_winner, winner_by_return}

-- A window of one point: a car is at the line after two rounds, and needs seven steps in all.
abbrev narrow : Event
narrow = message timeout (Message.size 1 1)

abbrev schedule : List Event
schedule =
    narrow ∷ replicate 4 (thread timeout 2)
    ++ replicate 4 (thread timeout 0)
    ++ replicate 4 (thread timeout 2)
    ++ replicate 4 (thread timeout 0)

abbrev race : Race
race = win_main start_race_1

one_winner_example :
    length (run (message timeout Message.rbuttondown ∷ schedule) race).announced ≤ 1
unfolding win_main started
one_winner_example =
    one_winner timeout schedule race (omega arith)
      (record { waits = λ c. refl; no_winner = refl; no_message = refl; window = refl })

winner_by_return_example :
    length (run (message timeout Message.rbuttondown ∷ schedule) race).announced ≡ 1
unfolding win_main started run step wnd_proc dispatch start_car or_else enter set_car resumed
    resume_all
winner_by_return_example =
    winner_by_return timeout schedule race 2 (omega arith)
      (record { waits = λ c. refl; no_winner = refl; no_message = refl; window = refl }) refl refl

-- With the right button the first car at the line wins.
synchronized : (run (message timeout Message.rbuttondown ∷ schedule) race).announced ≡ 2 ∷ []
unfolding win_main started run step wnd_proc dispatch start_car or_else enter set_car resumed
    resume_all
synchronized = refl

-- With the left button two cars can test `winner` before one of them sets it.
unsynchronized : (run (message timeout Message.lbuttondown ∷ schedule) race).announced ≡ 0 ∷ 2 ∷ []
unfolding win_main started run step wnd_proc dispatch start_car or_else enter set_car resumed
    resume_all
unsynchronized = refl
