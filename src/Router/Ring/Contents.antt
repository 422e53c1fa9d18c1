-- ===== src/Router/Ring/Contents.antt =====
-- The ring as a bounded queue of bytes: `write` appends to it, `read` takes from its front.
use ridingthecode.Common.{
  ℕ, ◌+◌, ◌-◌, ◌≤◌, ◌≡◌, List, ◌++◌, arith, min, length, take, drop, take-add, length-append,
  length-take, length-drop, take-length-append, drop-length-append, append_assoc, copy_to_front,
  copy_to_two, append-nil, drop_all, ◌∙◌, ap, take_all,
}
use ridingthecode.Router.Ring.{CircularBuffer, write, read, write_bytes, read_bytes, slice}
use ridingthecode.Router.Ring.Bounds.{IsValid, wrapped}
use ridingthecode.Router.Ring.Window.{
  window, length-window, window-split, window-slice, window-copy_to, window-copy_round,
}

-- the bytes stored, oldest first
unfoldable pub contents : CircularBuffer → List ℕ
contents r = window r.cells r.capacity r.beg_index r.size

pub length-contents : (r : CircularBuffer) → length (contents r) ≡ r.size
unfolding contents
length-contents r = length-window r.cells r.capacity r.beg_index r.size

write_bytes-contents :
    (r : CircularBuffer) (src : List ℕ) (n : ℕ)
    → IsValid r
    → n ≤ r.capacity - r.size
    → n ≤ length src
    → contents (write_bytes r src n).1 ≡ contents r ++ take n src
unfolding write_bytes contents
write_bytes-contents r src n v h k = ground (
  arith,
  window-copy_to r.cells r.capacity r.beg_index r.size r.end_index (r.size + n) (take n src),
  window-copy_round r.cells r.capacity r.beg_index r.size r.end_index (r.size + n) (take room src)
      (slice src room (n - room)),
  append_assoc (contents r) (take room src) (slice src room (n - room)),
  length-take n src,
  length-take room src,
  length-take (n - room) (drop room src),
  length-drop room src,
  take-add room (n - room) src,
)
  where
    room : ℕ
    room = r.capacity - r.end_index

read_bytes-contents :
    (r : CircularBuffer) (dst : List ℕ) (n : ℕ)
    → IsValid r
    → n ≤ r.size
    → contents (read_bytes r dst n).2 ≡ drop n (contents r)
unfolding read_bytes contents
read_bytes-contents r dst n v h = ground (
  arith,
  window-split r.cells r.capacity r.beg_index n (r.size - n),
  length-window r.cells r.capacity r.beg_index n,
  drop-length-append (window r.cells r.capacity r.beg_index n)
      (window r.cells r.capacity (wrapped r.capacity (r.beg_index + n)) (r.size - n)),
)

length-slice : (xs : List ℕ) (off n : ℕ) → off + n ≤ length xs → length (slice xs off n) ≡ n
length-slice xs off n h = omega (arith, length-take n (drop off xs), length-drop off xs)

read_bytes-dst :
    (r : CircularBuffer) (dst : List ℕ) (n : ℕ)
    → IsValid r
    → n ≤ r.size
    → n ≤ length dst
    → (read_bytes r dst n).1 ≡ take n (contents r) ++ drop n dst
unfolding read_bytes contents
read_bytes-dst r dst n v h k = ground (
  arith,
  window-split r.cells r.capacity r.beg_index n (r.size - n),
  length-window r.cells r.capacity r.beg_index n,
  take-length-append (window r.cells r.capacity r.beg_index n)
      (window r.cells r.capacity (wrapped r.capacity (r.beg_index + n)) (r.size - n)),
  window-slice r.cells r.capacity r.beg_index n,
  window-slice r.cells r.capacity r.beg_index room,
  window-split r.cells r.capacity r.beg_index room (n - room),
  window-slice r.cells r.capacity 0 (n - room),
  copy_to_two dst (slice r.cells r.beg_index room) (take (n - room) r.cells) 0,
  copy_to_front dst (slice r.cells r.beg_index room ++ take (n - room) r.cells) 0,
  copy_to_front dst (slice r.cells r.beg_index n) 0,
  length-slice r.cells r.beg_index n,
  length-slice r.cells r.beg_index room,
  length-take (n - room) r.cells,
  length-append (slice r.cells r.beg_index room) (take (n - room) r.cells),
)
  where
    room : ℕ
    room = r.capacity - r.beg_index

-- On a valid ring and a source of at least `bytes` bytes, `write` stores as many of these bytes as
-- there is room for, returns their number, and puts exactly these, in order, behind what the ring
-- holds.
pub write_lem :
    (r : CircularBuffer) (src : List ℕ) (bytes : ℕ)
    → IsValid r
    → bytes ≤ length src
    → ((write r src bytes).0 ≡ min bytes (r.capacity - r.size))
      × (contents (write r src bytes).1 ≡ contents r ++ take (min bytes (r.capacity - r.size)) src)
unfolding write
write_lem r src bytes v h =
    ground (
      arith,
      write_bytes-contents r src (min bytes (r.capacity - r.size)) v,
      append-nil (contents r),
    )

-- On a valid ring and a destination of at least `bytes` bytes, `read` returns as many bytes as
-- there are and as are asked for, copies exactly these, the oldest, to the front of the
-- destination, leaves the rest of that, and removes them from the ring.
pub read_lem :
    (r : CircularBuffer) (dst : List ℕ) (bytes : ℕ)
    → IsValid r
    → bytes ≤ length dst
    → ((read r dst bytes).0 ≡ min bytes r.size)
      × ((read r dst bytes).1 ≡ take (min bytes r.size) (contents r) ++ drop (min bytes r.size) dst)
      × (contents (read r dst bytes).2 ≡ drop (min bytes r.size) (contents r))
unfolding read
read_lem r dst bytes v h = ground (
  arith,
  read_bytes-contents r dst (min bytes r.size) v,
  read_bytes-dst r dst (min bytes r.size) v,
)

-- A block that fits is stored whole.
pub write_whole :
    (r : CircularBuffer) (p : List ℕ) (n : ℕ)
    → IsValid r
    → length p ≡ n
    → r.size + n ≤ r.capacity
    → contents (write r p n).1 ≡ contents r ++ p
write_whole r p n v h k =
    (write_lem r p n v (omega arith)).1
    ∙ ap (λ l. contents r ++ l) (take_all (min n (r.capacity - r.size)) p (omega arith))

-- A block at the front of the buffer is read whole into a block of its size.
pub read_whole :
    (r : CircularBuffer) (dst p q : List ℕ) (n : ℕ)
    → IsValid r
    → length dst ≡ n
    → length p ≡ n
    → contents r ≡ p ++ q
    → ((read r dst n).1 ≡ p) × (contents (read r dst n).2 ≡ q)
read_whole r dst p q n v h k e = ground (
  arith,
  read_lem r dst n v,
  length-contents r,
  length-append p q,
  take-length-append p q,
  drop-length-append p q,
  drop_all n dst,
  append-nil p,
)
