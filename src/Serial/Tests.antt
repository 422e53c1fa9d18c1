-- ===== src/Serial/Tests.antt =====
-- The theorems on the terminal at concrete runs.
use ridingthecode.Common.{ℕ, List, [], ◌∷◌, ◌++◌, Option, none, some, true, arith, ◌≡◌, refl}
use ridingthecode.Serial.{
  Terminal, win_main, connected, connect, init, Message, wnd_proc, end_session, write_output_buffer,
  Event, message, read, step, run, exec_read, wrapped, advanced,
}
use ridingthecode.Serial.Session.{IsSession, run-IsSession}
use ridingthecode.Serial.Cursor.{reads, character_place}

abbrev session : List Event
session =
    message (Message.connect_to true true)
    ∷ message (Message.char b'a' true)
    ∷ read (some b'b')
    ∷ message (Message.keydown 27)
    ∷ []

run-IsSession_example : IsSession (run session (win_main 8 16))
run-IsSession_example = run-IsSession 8 16 session (omega arith)

abbrev typing : List Event
typing = message (Message.char b'a' true) ∷ message Message.port_comm3 ∷ []

-- Three characters of this font begin in a row.
abbrev terminal : Terminal
terminal = record (win_main 300 20) { serial_on = true }

abbrev line : List (Option ℕ)
line = some b'a' ∷ none ∷ some b'c' ∷ some b'd' ∷ []

character_place_example :
    (step (read (some b'e')) (run (reads line) terminal)).shown
    ≡ (run (reads line) terminal).shown ++ (300, 20, b'e') ∷ []
unfolding win_main
character_place_example =
    character_place line b'e' terminal 2 1 1 refl refl refl (omega arith) (omega arith)
      (omega arith) refl

-- What was typed goes to the port that was opened.
typed : (run session (win_main 8 16)).written ≡ (1, b'a') ∷ []
unfolding win_main run step wnd_proc connect connected init write_output_buffer exec_read wrapped
    advanced end_session
typed = refl

-- A read without a byte draws the last one again.
stale :
    (run (reads line) terminal).shown
    ≡ (0, 0, b'a') ∷ (300, 0, b'a') ∷ (600, 0, b'c') ∷ (0, 20, b'd') ∷ []
unfolding win_main run step exec_read wrapped advanced
stale = refl
