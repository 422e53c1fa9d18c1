-- ===== src/Chat/Client/Console.antt =====
-- LinuxAssign3/client/src/InputController.cpp: the lines that are typed, one turn for each that
-- `getline` gives. `temp` is its whole buffer, with the line as a C string at its start.
use ridingthecode.Common.{
  ℕ, ◌+◌, List, [], ◌∷◌, ◌++◌, Bool, true, false, Option, none, some, length, take, drop, leb,
  if◌then◌else◌,
}
use ridingthecode.Common.Text.{Bytes, same_bytes, c_string, codes}
use ridingthecode.Common.Fault.{Fault, ok, fault, ◌>>=◌}
use ridingthecode.Packet.{int_bytes}
use ridingthecode.Chat.Packets.{
  max_string, max_channel_name, max_user_name, client_msg_pkt, client_join_pkt, write_packet,
}
use ridingthecode.Chat.Scan.{scan_word, behind_word}
use ridingthecode.Chat.Client.{exit_code, quit_channel_code, log_code}

-- `cmd` after a line, what is written to the pipe, and whether the thread ends
abbrev pub Typed : Type 0
Typed = Bytes × List Bytes × Bool

-- the packet of `/join`, with the channel's name in its place
joining : Bytes → Bytes → Option Bytes → Typed
joining cmd cjoin none = (cmd, [], false)
joining cmd cjoin (some name) = (
  cmd,
  write_packet client_join_pkt
      (take max_user_name cjoin ++ (name ++ drop (max_user_name + max_channel_name) cjoin)),
  false,
)

-- `/join`, with the packet as `malloc` gives it
unfoldable pub join_line : Bytes → Bytes → Bytes → Fault Typed
unfolding joining
join_line cjoin text cmd = do
  name ← scan_word (behind_word text) (take max_channel_name (drop max_user_name cjoin))
  ok (joining cmd cjoin name)

-- The message is cut from the buffer, which may be smaller.
unfoldable pub message_line : Bytes → Bytes → Fault Typed
message_line temp cmd =
    if leb max_string (length temp)
    then ok (cmd, write_packet client_msg_pkt (take max_string temp), false)
    else fault

-- the tests of `cmd`
unfoldable pub obey : (ℕ → Bytes) → Bytes → Bytes → Fault Typed
obey malloc temp cmd =
    let typed = c_string cmd in
    if same_bytes typed (codes "/join")
    then join_line (malloc 44) (c_string temp) cmd
    else if same_bytes typed (codes "/leave")
    then ok (cmd, int_bytes quit_channel_code ∷ [], false)
    else if same_bytes typed (codes "/log")
    then ok (cmd, int_bytes log_code ∷ [], false)
    else if same_bytes typed (codes "/exit")
    then ok (cmd, int_bytes exit_code ∷ [], true)
    else message_line temp cmd

-- the first word, stored over `cmd` if there is one
unfoldable pub stored : Bytes → Option Bytes → Bytes
stored cmd none = cmd
stored cmd (some word) = word

unfoldable pub input_line : (ℕ → Bytes) → Bytes → Bytes → Fault Typed
unfolding stored
input_line malloc temp cmd = do
  first ← scan_word (c_string temp) cmd
  obey malloc temp (stored cmd first)
