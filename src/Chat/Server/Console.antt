-- ===== src/Chat/Server/Console.antt =====
-- `InputManager` of LinuxAssign3/server/src/ServerSystemRouter.cpp: the commands that are typed, one
-- turn for each line that `getline` gives.
use ridingthecode.Common.{List, [], ◌∷◌, Bool, true, false, Option, none, some, if◌then◌else◌}
use ridingthecode.Common.Int.{ℤ}
use ridingthecode.Common.Text.{Bytes, same_bytes, c_string, codes}
use ridingthecode.Common.Fault.{Fault, ok, ◌>>=◌}
use ridingthecode.Packet.{int_bytes}
use ridingthecode.Chat.Scan.{scan_word, behind_word}
use ridingthecode.Chat.Server.{channel_create, channel_close_code, user_display, server_exit}

-- the buffers that stay from one line to the next
pub record Console : Type 0 where
  pub cmd : Bytes
  pub channelname : Bytes

-- The buffers after a line, what is written to the pipe of the router, and whether the thread ends.
abbrev pub Typed : Type 0
Typed = Console × List Bytes × Bool

-- a buffer that `sscanf` leaves as it was, or fills
abbrev pub scanned : Bytes → Option Bytes → Bytes
scanned buffer none = buffer
scanned buffer (some filled) = filled

-- the second word, without which the command is refused
with_name : ℤ → Console → Option Bytes → Typed
with_name type k none = (k, [], false)
with_name type k (some name) = (record k { channelname = name }, int_bytes type ∷ name ∷ [], false)

named_command : ℤ → Bytes → Console → Fault Typed
unfolding with_name
named_command type text k = do
  name ← scan_word (behind_word text) k.channelname
  ok (with_name type k name)

-- the tests of `cmd`
unfoldable pub obey : Bytes → Console → Fault Typed
unfolding named_command
obey text k =
    let cmd = c_string k.cmd in
    if same_bytes cmd (codes "/create")
    then named_command channel_create text k
    else if same_bytes cmd (codes "/exit")
    then ok (k, int_bytes server_exit ∷ [], true)
    else if same_bytes cmd (codes "/users")
    then named_command user_display text k
    else if same_bytes cmd (codes "/close")
    then named_command channel_close_code text k
    else ok (k, [], false)

-- One line. The second `sscanf` stores the first word again, which changes nothing.
unfoldable pub input_line : Bytes → Console → Fault Typed
input_line line k = do
  first ← scan_word (c_string line) k.cmd
  obey (c_string line) (record k { cmd = scanned k.cmd first })
