-- ===== src/Chat/Scan.antt =====
-- `sscanf` with `%s`, as the input threads of LinuxAssign3/server and LinuxAssign3/client use it.
use ridingthecode.Common.{[], ◌∷◌, ◌++◌, Option, none, some, length, copy_to, ltb, if◌then◌else◌}
use ridingthecode.Common.Text.{Bytes}
use ridingthecode.Common.Decimal.{is_space, skip_space}
use ridingthecode.Common.Fault.{Fault, ok, fault}

-- the bytes up to the first white space, and those from there on
unfoldable pub word : Bytes → Bytes
word [] = []
word (c ∷ cs) = let rest = c ∷ word cs in if is_space c then [] else rest

unfoldable pub after_word : Bytes → Bytes
after_word [] = []
after_word (c ∷ cs) = let rest = after_word cs in if is_space c then c ∷ cs else rest

-- a `%s` into `buffer`, which a longer word runs out of: none where there is no word
unfoldable pub scan_word : Bytes → Bytes → Fault (Option Bytes)
scan_word text buffer =
    let found = word (skip_space text) in
    if ltb 0 (length found)
    then if ltb (length found) (length buffer)
      then ok (some (copy_to buffer 0 (found ++ 0 ∷ [])))
      else fault
    else ok none

-- the text behind the first word
unfoldable pub behind_word : Bytes → Bytes
behind_word text = after_word (skip_space text)
