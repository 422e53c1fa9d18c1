-- ===== src/Router/Ring/Tests.antt =====
-- Runs of 7005_NVirt/NVirt/src/CircularBuffer.cpp on a ring that goes round, and uses of its laws.
use ridingthecode.Common.{◌≡◌, refl, [], ◌∷◌, ◌++◌, arith, copy_to, tabulate}
use ridingthecode.Router.Ring.{CircularBuffer, write, read, write_bytes, read_bytes}
use ridingthecode.Router.Ring.Bounds.{IsValid}
use ridingthecode.Router.Ring.Window.{window}
use ridingthecode.Router.Ring.Contents.{contents, write_lem, read_lem}

-- a ring of 4 that holds 7, 5 and 6, the last two at its front
abbrev ring : CircularBuffer
ring = record { beg_index = 3; end_index = 2; size = 3; capacity = 4; cells = 5 ∷ 6 ∷ 0 ∷ 7 ∷ [] }

ring-IsValid : IsValid ring
ring-IsValid = record {
  small = omega arith;
  cells_fit = refl;
  beg_in = omega arith;
  size_in = omega arith;
  end_at = refl;
}

one_written : (write ring (1 ∷ 2 ∷ []) 2).1.cells ≡ 5 ∷ 6 ∷ 1 ∷ 7 ∷ []
unfolding write write_bytes copy_to
one_written = refl

two_read : (read ring (0 ∷ 0 ∷ []) 2).1 ≡ 7 ∷ 5 ∷ []
unfolding read read_bytes copy_to
two_read = refl

write_lem_example :
    ((write ring (1 ∷ 2 ∷ []) 2).0 ≡ 1)
    × (contents (write ring (1 ∷ 2 ∷ []) 2).1 ≡ contents ring ++ 1 ∷ [])
write_lem_example = write_lem ring (1 ∷ 2 ∷ []) 2 ring-IsValid (omega arith)

read_lem_example :
    ((read ring (8 ∷ 9 ∷ []) 2).0 ≡ 2)
    × ((read ring (8 ∷ 9 ∷ []) 2).1 ≡ 7 ∷ 5 ∷ [])
    × (contents (read ring (8 ∷ 9 ∷ []) 2).2 ≡ 6 ∷ [])
unfolding contents window tabulate
read_lem_example = read_lem ring (8 ∷ 9 ∷ []) 2 ring-IsValid (omega arith)
