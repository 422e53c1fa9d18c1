-- ===== src/Chat/Server/Commands.antt =====
-- From a line at the terminal of the server to the channel.
use ridingthecode.Common.{
  ℕ, ◌+◌, ◌≤◌, ◌<◌, ◌≡◌, ◌≢◌, refl, sym, ap, ◌∙◌, [], ◌∷◌, ◌++◌, true, false, arith, none, some,
  length, copy_to, copy_to_front, if◌then◌else◌, length-append, lt→ltb, drop, append_assoc,
  length-drop,
}
use ridingthecode.Common.Int.{ℤ, bytes_word}
use ridingthecode.Common.Text.{
  Bytes, same_bytes, c_string, codes, before, before-append, Avoids, before_all,
}
use ridingthecode.Common.Decimal.{is_space, skip_space}
use ridingthecode.Common.Fault.{ok}
use ridingthecode.Packet.{int_bytes}
use ridingthecode.Chat.Stream.{Stream}
use ridingthecode.Chat.Stream.Receive.{copy_to_all}
use ridingthecode.Chat.Server.Routing.{read_pipe_whole}
use ridingthecode.Chat.Scan.{word, after_word, scan_word, behind_word}
use ridingthecode.Chat.Packets.{max_channels}
use ridingthecode.Chat.Channel.Names.{HasNul}
use ridingthecode.Chat.Server.Names.{IsRouter, or_else, opened-IsRouter, opened-channel_of}
use ridingthecode.Chat.Server.{
  Router, channel_of, opened, started, going, main_turn, channel_create, open_channel, add_channel,
}
use ridingthecode.Chat.Server.Console.{Console, input_line, obey}

-- a word: no white space and no NUL in it
abbrev pub IsWord : Bytes → Type 0
IsWord [] = Unit {0}
IsWord (x ∷ xs) = (is_space x ≡ false) × (x ≢ 0) × IsWord xs

IsWord-Avoids : (w : Bytes) → IsWord w → Avoids 0 w
IsWord-Avoids [] h = tt
IsWord-Avoids (x ∷ xs) h = (h.1, IsWord-Avoids xs h.2)

word-append : (w : Bytes) (rest : Bytes) → IsWord w → word (w ++ 10 ∷ rest) ≡ w
unfolding word is_space
word-append [] rest h = refl
word-append (x ∷ xs) rest h = rw (h.0, word-append xs rest h.2) refl

skip_space-word : (x : ℕ) (xs : Bytes) → is_space x ≡ false → skip_space (x ∷ xs) ≡ x ∷ xs
unfolding skip_space
skip_space-word x xs h = rw h refl

-- A word goes into a buffer that is longer, with its NUL.
scan_word-IsWord :
    (w rest buffer text : Bytes)
    → IsWord w
    → 0 < length w
    → length w < length buffer
    → skip_space text ≡ w ++ 10 ∷ rest
    → scan_word text buffer ≡ ok (some (w ++ (0 ∷ drop (length w + 1) buffer)))
unfolding scan_word
scan_word-IsWord w rest buffer text h l m e =
    rw (e, word-append w rest h, lt→ltb 0 (length w) l, lt→ltb (length w) (length buffer) m, filled)
      refl
  where
    filled : copy_to buffer 0 (w ++ 0 ∷ []) ≡ w ++ (0 ∷ drop (length w + 1) buffer)
    filled =
        copy_to_front buffer (w ++ 0 ∷ []) 0 (omega (arith, length-append w (0 ∷ []), m))
        ∙ ap (λ n. (w ++ 0 ∷ []) ++ drop n buffer) (length-append w (0 ∷ []))
        ∙ append_assoc w (0 ∷ []) (drop (length w + 1) buffer)

-- the line `/create w`
line_of : Bytes → Bytes
line_of w = codes "/create " ++ (w ++ 10 ∷ [])

-- a turn that reads the command
create_turn :
    (malloc stack : ℕ → Bytes) (read_end : ℤ) (name : Bytes) (pipe : Stream) (r : Router)
    → length name ≡ 20
    → r.open_channels < max_channels
    → length (stack 20) ≡ 20
    → main_turn malloc stack read_end none true (int_bytes channel_create ∷ name ∷ pipe) r
      ≡ going
          (opened name read_end (record r { type = channel_create }))
          pipe
          (started r.open_channels name read_end ∷ [])
unfolding main_turn add_channel open_channel bytes_word copy_to
create_turn malloc stack read_end name pipe r sized free blank =
    rw
      (
        read_pipe_whole 3 (int_bytes channel_create) (name ∷ pipe) refl,
        read_pipe_whole 19 name pipe sized,
        copy_to_all (stack 20) name (sized ∙ sym blank),
        lt→ltb r.open_channels max_channels free,
      )
      refl

line-Avoids : (w : Bytes) → IsWord w → Avoids 0 (line_of w)
unfolding line_of
line-Avoids w h = literal (tail w h)
  where
    literal : Avoids 0 (w ++ 10 ∷ []) → Avoids 0 (codes "/create " ++ (w ++ 10 ∷ []))
    literal t = ground (arith, t)

    tail : (w : Bytes) → IsWord w → Avoids 0 (w ++ 10 ∷ [])
    tail [] h = (omega arith, tt)
    tail (x ∷ xs) h = (h.1, tail xs h.2)

scan_command :
    (w buffer : Bytes)
    → 8 ≤ length buffer
    → scan_word (line_of w) buffer ≡ ok (some (codes "/create" ++ (0 ∷ drop 8 buffer)))
unfolding scan_word line_of word skip_space is_space
scan_command w buffer h =
    rw
      (
        lt→ltb 7 (length buffer) (omega (arith, h)),
        copy_to_front buffer (codes "/create" ++ (0 ∷ [])) 0 (omega (arith, h)),
      )
      refl

behind_command :
    (w : Bytes) → IsWord w → 0 < length w → skip_space (behind_word (line_of w)) ≡ w ++ 10 ∷ []
unfolding line_of behind_word after_word skip_space is_space
behind_command [] h l = absurd (omega arith)
behind_command (x ∷ xs) h l = skip_space-word x (xs ++ 10 ∷ []) h.0

-- the thread that reads the line
create_line :
    (w : Bytes) (k : Console)
    → IsWord w
    → 0 < length w
    → length w < 20
    → length k.channelname ≡ 20
    → 8 ≤ length k.cmd
    → input_line (line_of w) k
      ≡ ok (
        record {
          cmd = codes "/create" ++ (0 ∷ drop 8 k.cmd);
          channelname = w ++ (0 ∷ drop (length w + 1) k.channelname);
        },
        int_bytes channel_create ∷ (w ++ (0 ∷ drop (length w + 1) k.channelname)) ∷ [],
        false,
      )
unfolding input_line line_of obey same_bytes before
create_line w k h l m room cmd_room =
    rw
      (
        before_all 0 (line_of w) (line-Avoids w h),
        scan_command w k.cmd cmd_room,
        scan_word-IsWord w [] k.channelname (behind_word (line_of w)) h l (omega (arith, room, m))
            (behind_command w h l),
      )
      refl

-- The line `/create w`, for a word `w` of 19 bytes at most, and the turn of the router that reads
-- what the line writes: while there are rows, a channel is started, and the name finds it unless it
-- found another before. Every other name finds what it found. The buffers have their sizes, 8 bytes
-- of `cmd` being enough, and the names in the router's rows end there, which stays so.
pub create_command :
    (malloc stack : ℕ → Bytes) (read_end : ℤ) (w m : Bytes) (k : Console) (pipe : Stream)
    (r : Router)
    → IsWord w
    → 0 < length w
    → length w < 20
    → length k.channelname ≡ 20
    → 8 ≤ length k.cmd
    → IsRouter r
    → r.open_channels < max_channels
    → length (stack 20) ≡ 20
    → (name : Bytes) × (k' : Console) × (r' : Router) × (input_line
          (codes "/create " ++ (w ++ 10 ∷ []))
          k
        ≡ ok (k', int_bytes channel_create ∷ name ∷ [], false))
      × (main_turn malloc stack read_end none true (int_bytes channel_create ∷ name ∷ pipe) r
          ≡ going r' pipe (started r.open_channels name read_end ∷ []))
      × IsRouter r'
      × (channel_of r' m
          ≡ or_else (channel_of r m) (if same_bytes w m then some r.open_channels else none))
unfolding line_of
create_command malloc stack read_end w m k pipe r h l short room cmd_room v free blank = (
  name,
  _,
  opened name read_end r₀,
  create_line w k h l short room cmd_room,
  create_turn malloc stack read_end name pipe r sized free blank,
  opened-IsRouter name r₀ v₀ nul free read_end,
  opened-channel_of name read_end r₀ v₀ nul free m
      ∙ ap (λ b. or_else (channel_of r m) (if same_bytes b m then some r.open_channels else none))
          text,
)
  where
    name : Bytes
    name = w ++ (0 ∷ drop (length w + 1) k.channelname)

    r₀ : Router
    r₀ = record r { type = channel_create }

    v₀ : IsRouter r₀
    v₀ = record { names = v.names; in_use = v.in_use; ended = v.ended }

    sized : length name ≡ 20
    sized =
        length-append w (0 ∷ drop (length w + 1) k.channelname)
        ∙ omega (arith, length-drop (length w + 1) k.channelname, room, short)

    text : c_string name ≡ w
    text = before-append 0 w (drop (length w + 1) k.channelname) (IsWord-Avoids w h)

    nul : HasNul name
    nul = omega (arith, ap length text, sized, short)
