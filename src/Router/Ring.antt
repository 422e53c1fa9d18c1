-- ===== src/Router/Ring.antt =====
-- 7005_NVirt/NVirt/src/CircularBuffer.cpp: the byte ring that stores what the emulator relays.
-- `write` and `read` work by at most two block copies. A caller's buffer is a list of bytes.
pub mod Bounds
pub mod Window
pub mod Contents
mod Tests
use ridingthecode.Common.{
  ℕ, ◌+◌, ◌-◌, ◌%◌, ◌^◌, min, List, take, drop, replicate, copy_to, leb, ◌==◌, if◌then◌else◌,
}

-- `size_t` arithmetic wraps at 2 ^ 64.
abbrev pub add_size : ℕ → ℕ → ℕ
add_size a b = (a + b) % 2 ^ 64

abbrev pub sub_size : ℕ → ℕ → ℕ
sub_size a b = (a + 2 ^ 64 - b) % 2 ^ 64

pub record CircularBuffer : Type 0 where
  pub beg_index : ℕ
  pub end_index : ℕ
  pub size : ℕ
  pub capacity : ℕ
  pub cells : List ℕ

unfoldable pub new_buffer : ℕ → CircularBuffer
new_buffer capacity = record {
  beg_index = 0;
  end_index = 0;
  size = 0;
  capacity = capacity;
  cells = replicate capacity 0;
}

-- `memcpy(dst, mem + off, n)`, as the bytes that are copied
abbrev pub slice : List ℕ → ℕ → ℕ → List ℕ
slice mem off n = take n (drop off mem)

-- the part of `write` below its early return, with `bytes_to_write` computed
write_bytes : CircularBuffer → List ℕ → ℕ → ℕ × CircularBuffer
write_bytes r src n =
    if leb n (sub_size r.capacity r.end_index)
    then (
      n,
      record r {
        cells = copy_to r.cells r.end_index (take n src);
        end_index = if add_size r.end_index n == r.capacity then 0 else add_size r.end_index n;
        size = add_size r.size n;
      },
    )
    else (
      n,
      record r {
        cells = copy_to (copy_to r.cells r.end_index (take size_1 src)) 0 (slice src size_1 size_2);
        end_index = size_2;
        size = add_size r.size n;
      },
    )
  where
    size_1 : ℕ
    size_1 = sub_size r.capacity r.end_index

    size_2 : ℕ
    size_2 = sub_size n size_1

-- The bytes written, and the buffer after it.
unfoldable pub write : CircularBuffer → List ℕ → ℕ → ℕ × CircularBuffer
unfolding write_bytes
write r src bytes =
    if bytes == 0 then (0, r) else write_bytes r src (min bytes (sub_size r.capacity r.size))

-- the part of `read` below its early return, with `bytes_to_read` computed
read_bytes : CircularBuffer → List ℕ → ℕ → ℕ × List ℕ × CircularBuffer
read_bytes r dst n =
    if leb n (sub_size r.capacity r.beg_index)
    then (
      n,
      copy_to dst 0 (slice r.cells r.beg_index n),
      record r {
        beg_index = if add_size r.beg_index n == r.capacity then 0 else add_size r.beg_index n;
        size = sub_size r.size n;
      },
    )
    else (
      n,
      copy_to (copy_to dst 0 (slice r.cells r.beg_index size_1)) size_1 (take size_2 r.cells),
      record r { beg_index = size_2; size = sub_size r.size n },
    )
  where
    size_1 : ℕ
    size_1 = sub_size r.capacity r.beg_index

    size_2 : ℕ
    size_2 = sub_size n size_1

-- The bytes read, the caller's buffer and the ring after it.
unfoldable pub read : CircularBuffer → List ℕ → ℕ → ℕ × List ℕ × CircularBuffer
unfolding read_bytes
read r dst bytes = if bytes == 0 then (0, dst, r) else read_bytes r dst (min bytes r.size)
