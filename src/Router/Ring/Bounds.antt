-- ===== src/Router/Ring/Bounds.antt =====
-- The representation invariant of the ring: every index and count is in range.
use ridingthecode.Common.{
  ℕ, ◌+◌, ◌-◌, ◌^◌, ◌≤◌, ◌<◌, min, ◌≡◌, refl, List, arith, leb, if◌then◌else◌, length,
  length-copy_to, length-replicate, take, copy_to,
}
use ridingthecode.Router.Ring.{
  CircularBuffer, new_buffer, write, read, write_bytes, sub_size, slice,
}

-- the index `k` steps on, for a `k` below twice the capacity
abbrev pub wrapped : ℕ → ℕ → ℕ
wrapped cap k = if leb cap k then k - cap else k

-- A `new char[capacity]` succeeds only below half the address space.
pub record IsValid (r : CircularBuffer) : Type 0 where
  pub small : r.capacity < 2 ^ 63
  pub cells_fit : length r.cells ≡ r.capacity
  pub beg_in : r.beg_index < r.capacity
  pub size_in : r.size ≤ r.capacity
  pub end_at : r.end_index ≡ wrapped r.capacity (r.beg_index + r.size)

-- A new buffer of a positive capacity is valid and empty.
pub new_buffer-IsValid :
    (capacity : ℕ)
    → 0 < capacity
    → capacity < 2 ^ 63
    → IsValid (new_buffer capacity) × ((new_buffer capacity).size ≡ 0)
unfolding new_buffer
new_buffer-IsValid capacity h k = ground (arith, length-replicate capacity (◌+◌ 0 0))

pub capacity-new_buffer : (capacity : ℕ) → (new_buffer capacity).capacity ≡ capacity
unfolding new_buffer
capacity-new_buffer capacity = refl

pub capacity-write :
    (r : CircularBuffer) (src : List ℕ) (bytes : ℕ) → (write r src bytes).1.capacity ≡ r.capacity
unfolding write write_bytes
capacity-write r src bytes = ground arith

pub capacity-read :
    (r : CircularBuffer) (dst : List ℕ) (bytes : ℕ) → (read r dst bytes).2.capacity ≡ r.capacity
unfolding read
capacity-read r dst bytes = ground arith

write_bytes-IsValid :
    (r : CircularBuffer) (src : List ℕ) (n : ℕ)
    → IsValid r
    → n ≤ r.capacity - r.size
    → IsValid (write_bytes r src n).1
unfolding write_bytes
write_bytes-IsValid r src n v h = ground (
  arith,
  length-copy_to r.cells r.end_index (take n src),
  length-copy_to r.cells r.end_index (take room src),
  length-copy_to (copy_to r.cells r.end_index (take room src)) 0 (slice src room (sub_size n room)),
)
  where
    room : ℕ
    room = sub_size r.capacity r.end_index

-- `write` to a valid ring leaves a valid ring, whatever else it is given.
pub write-IsValid :
    (r : CircularBuffer) (src : List ℕ) (bytes : ℕ) → IsValid r → IsValid (write r src bytes).1
unfolding write
write-IsValid r src bytes v =
    ground (arith, write_bytes-IsValid r src (min bytes (sub_size r.capacity r.size)) v)

-- `read` from a valid ring leaves a valid ring, whatever else it is given.
pub read-IsValid :
    (r : CircularBuffer) (dst : List ℕ) (bytes : ℕ) → IsValid r → IsValid (read r dst bytes).2
unfolding read
read-IsValid r dst bytes v = ground arith
