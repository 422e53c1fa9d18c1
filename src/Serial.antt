-- ===== src/Serial.antt =====
-- The terminal of serialTerm: serialApp.cpp, its window, and serialPhys.cpp, the serial port and the
-- thread that reads it.
mod Tests
pub mod Session
pub mod Leak
pub mod Cursor
use ridingthecode.Common.{
  ℕ, ◌+◌, ◌%◌, List, [], ◌∷◌, ◌++◌, Option, none, some, Bool, true, false, not, ◌&&◌, ◌==◌, leb,
  if◌then◌else◌,
}

abbrev win_width : ℕ
win_width = 800

abbrev vk_escape : ℕ
vk_escape = 27

pub data Port : Type 0 where
  com1 : Port
  com3 : Port

-- `hd_serial` and `read_thrd` are the fields of ioStruct, with none for NULL. A port that CreateFile opens
-- and a thread that CreateThread starts have a number from 1; `is_open` and `is_running` say which have
-- not been closed or terminated. `written` is what was written, with the port's number. `x`, `y` and
-- `char_buff` are the variables of the thread, `shown` what it drew, and `char_width` and `line_height`
-- the sizes of its font.
pub record Terminal : Type 0 where
  pub serial_on : Bool
  pub hd_serial : Option ℕ
  pub port : Port
  pub read_thrd : Option ℕ
  pub files : ℕ
  pub threads : ℕ
  pub is_open : ℕ → Bool
  pub is_running : ℕ → Bool
  pub can_connect : Bool
  pub is_checked_1 : Bool
  pub is_checked_3 : Bool
  pub written : List (ℕ × ℕ)
  pub x : ℕ
  pub y : ℕ
  pub char_buff : ℕ
  pub shown : List (ℕ × ℕ × ℕ)
  pub char_width : ℕ
  pub line_height : ℕ
  pub has_quit : Bool

-- The start of WinMain, for a font; the menu allows to connect.
unfoldable pub win_main : ℕ → ℕ → Terminal
win_main char_width line_height = record {
  serial_on = false;
  hd_serial = none;
  port = com1;
  read_thrd = none;
  files = 0;
  threads = 0;
  is_open = λ h. false;
  is_running = λ t. false;
  can_connect = true;
  is_checked_1 = false;
  is_checked_3 = false;
  written = [];
  x = 0;
  y = 0;
  char_buff = 0;
  shown = [];
  char_width = char_width;
  line_height = line_height;
  has_quit = false;
}

abbrev pub update : (ℕ → Bool) → ℕ → Bool → ℕ → Bool
update f i v j = if j == i then v else f j

-- init: `opens` says whether CreateFile gives a handle.
unfoldable pub init : Bool → Terminal → Terminal
init true t = record t {
  hd_serial = some (t.files + 1);
  files = t.files + 1;
  is_open = update t.is_open (t.files + 1) true;
}
init false t = record t { hd_serial = none }

-- A connected port, with Connect greyed. `starts` says whether CreateThread gives a thread, which starts with
-- its variables; where it gives NULL, the program goes on as well.
unfoldable pub connected : Bool → Option ℕ → Terminal → Terminal
connected starts none t = t
connected false (some h) t = record t { serial_on = true; read_thrd = none; can_connect = false }
connected true (some h) t = record t {
  serial_on = true;
  read_thrd = some (t.threads + 1);
  threads = t.threads + 1;
  is_running = update t.is_running (t.threads + 1) true;
  x = 0;
  y = 0;
  char_buff = 0;
  can_connect = false;
}

-- IDM_CONNECT
unfoldable pub connect : Bool → Bool → Terminal → Terminal
unfolding connected
connect opens starts t =
    let t' = init opens t in if t.serial_on then t else connected starts t'.hd_serial t'

-- endSession: nothing happens without both handles.
unfoldable pub end_session : Option ℕ → Option ℕ → Terminal → Terminal
end_session none r t = t
end_session (some h) none t = t
end_session (some h) (some r) t = record t {
  is_open = update t.is_open h false;
  is_running = update t.is_running r false;
}

-- writeOutputBuffer: one byte, where WriteFile succeeds.
unfoldable pub write_output_buffer : Option ℕ → ℕ → Bool → Terminal → Terminal
write_output_buffer none c succeeds t = t
write_output_buffer (some h) c succeeds t =
    if succeeds then record t { written = t.written ++ (h, c % 256) ∷ [] } else t

pub data Message : Type 0 where
  connect_to : Bool → Bool → Message
  help : Message
  port_comm1 : Message
  port_comm3 : Message
  data_settings : Message
  char : ℕ → Bool → Message
  keydown : ℕ → Message
  destroy : Message
  other : Message

-- A message of the window. `connect_to` brings whether the port opens and the thread starts, and `char` whether it is written.
unfoldable pub wnd_proc : Message → Terminal → Terminal
unfolding write_output_buffer
wnd_proc (connect_to opens starts) t = connect opens starts t
wnd_proc help t = t
wnd_proc port_comm1 t = record t { port = com1; is_checked_1 = true; is_checked_3 = false }
wnd_proc port_comm3 t = record t { port = com3; is_checked_3 = true; is_checked_1 = false }
wnd_proc data_settings t = t
wnd_proc (char c succeeds) t =
    if t.serial_on && not (c == vk_escape) then write_output_buffer t.hd_serial c succeeds t else t
wnd_proc (keydown key) t =
    if key == vk_escape && t.serial_on
    then end_session t.hd_serial t.read_thrd (record t { serial_on = false; can_connect = true })
    else t
wnd_proc destroy t = record t { has_quit = true }
wnd_proc other t = t

-- Where execRead draws the next character, and where the one after it goes.
unfoldable pub wrapped : ℕ → ℕ × ℕ → ℕ × ℕ
wrapped line_height (x, y) = if leb win_width x then (0, y + line_height) else (x, y)

unfoldable pub advanced : ℕ → ℕ × ℕ → ℕ × ℕ
advanced char_width (x, y) = (x + char_width, y)

-- A round of execRead in which ReadFile succeeds, with a byte or, after a timeout, without one: the
-- buffer is drawn in both cases.
unfoldable pub exec_read : Option ℕ → Terminal → Terminal
exec_read got t =
    let c : ℕ = elim got [ none ↦ t.char_buff | some b ↦ b ] in
    let (x, y) = wrapped t.line_height (t.x, t.y) in
    let (x', y') = advanced t.char_width (x, y) in
    record t { char_buff = c; x = x'; y = y'; shown = t.shown ++ (x, y, c) ∷ [] }

-- A message of the window, or a round of the reading thread, which ends with the session. Where CreateThread
-- failed there is no such round.
pub data Event : Type 0 where
  message : Message → Event
  read : Option ℕ → Event

unfoldable pub step : Event → Terminal → Terminal
step (message m) t = wnd_proc m t
step (read got) t = if t.serial_on then exec_read got t else t

unfoldable pub run : List Event → Terminal → Terminal
run [] t = t
run (e ∷ es) t = run es (step e t)
