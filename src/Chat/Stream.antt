-- ===== src/Chat/Stream.antt =====
-- What a TCP socket or a pipe hands to `read`, and `rcv_variable` of LinuxAssign3/server/src/utils.cpp.
-- A stream is the list of pieces that arrive, all that will come; an empty piece is a failing `read`.
pub mod Receive
use ridingthecode.Common.{
  ℕ, zero, suc, ◌+◌, ◌-◌, List, [], ◌∷◌, ◌++◌, length, take, drop, copy_to, leb, ◌==◌,
  if◌then◌else◌, Option, some, none,
}
use ridingthecode.Common.Text.{Bytes}

abbrev pub Stream : Type 0
Stream = List Bytes

-- `read(fd, buf, n)`: the bytes stored, none at the end or on an error, and what is still to come
unfoldable pub read : ℕ → Stream → Bytes × Stream
read zero s = ([], s)
read (suc n) [] = ([], [])
read (suc n) (c ∷ cs) = (take (suc n) c, if leb (length c) (suc n) then cs else drop (suc n) c ∷ cs)

-- `while ((numread = read(sockfd, buf, bytes_to_read)) > 0)`, with fuel
unfoldable pub rcv_loop : ℕ → ℕ → Stream → Bytes × Stream
unfolding read
rcv_loop zero to_read s = ([], s)
rcv_loop (suc fuel) to_read s =
    let (part, s') = read to_read s in
    let more = rcv_loop fuel (to_read - length part) s' in
    if length part == 0 then ([], s') else (part ++ more.0, more.1)

-- Every round but the last takes a byte, so `size + 1` rounds are enough.
unfoldable pub rcv_variable : Bytes → ℕ → Stream → Bytes × Stream
rcv_variable incoming size s =
    let (got, s') = rcv_loop (size + 1) size s in (copy_to incoming 0 got, s')

-- `read_pipe`: what is stored, or none where the `read` fails; at the end of the pipe nothing is stored.
unfoldable pub read_pipe : ℕ → Stream → Option Bytes × Stream
unfolding read
read_pipe n ([] ∷ cs) = if n == 0 then (some [], [] ∷ cs) else (none, cs)
read_pipe n s = let (part, s') = read n s in (some part, s')
