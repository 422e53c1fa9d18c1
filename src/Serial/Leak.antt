-- ===== src/Serial/Leak.antt =====
-- What a failure of CreateThread leaves of a session.
use ridingthecode.Common.{ℕ, List, [], ◌∷◌, none, true, false, ◌≡◌}
use ridingthecode.Serial.{Terminal, Message, Event, message, read, vk_escape}

-- What is typed, and the menus other than Connect.
abbrev pub IsQuiet : Event → Type 0
IsQuiet (message (Message.keydown key)) = ⊥
IsQuiet (message (Message.connect_to opens starts)) = ⊥
IsQuiet (message _) = Unit {0}
IsQuiet (read got) = ⊥

abbrev pub AreQuiet : List Event → Type 0
AreQuiet [] = Unit {0}
AreQuiet (e ∷ es) = IsQuiet e × AreQuiet es

-- A session on the port `h` that has no reading thread.
record Threadless (t : Terminal) (h : ℕ) : Type 0 where
  pub on : t.serial_on ≡ true
  pub no_thread : t.read_thrd ≡ none
  pub still_open : t.is_open h ≡ true

-- The session is over, and its port is open.
abbrev pub LeftOpen : Terminal → ℕ → Type 0
LeftOpen t h = (t.serial_on ≡ false) × (t.can_connect ≡ true) × (t.is_open h ≡ true)

abbrev pub escape : Event
escape = message (Message.keydown vk_escape)
