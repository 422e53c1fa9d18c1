-- ===== src/Common/Memory.antt =====
-- A block of memory as a list of its cells, and `memcpy` into it.
use Prim.Native.Nat.{ℕ, zero, suc, ◌+◌, ◌-◌, ◌≤◌, ◌<◌}
use mathlib.Core.Path.{◌≡◌, refl, ap, ◌∙◌}
use mathlib.Core.Bool.{◌&&◌}
use mathlib.Core.List.{List, [], ◌∷◌, ◌++◌}
use native.Mathlib.Omega.{arith}
use ridingthecode.Common.Tests.{ltb, leb, ◌==◌, if◌then◌else◌}
use ridingthecode.Common.Lists.{
  take, length-take, length, get_or, drop, length-append, length-drop, get_or-append, get_or-drop,
  list_ext, get_or-take,
}

module _ {ℓ} {A : Type ℓ} where
  -- A write past the end changes nothing; callers are proved to stay inside.
  abbrev pub set : List A → ℕ → A → List A
  set [] i v = []
  set (x ∷ xs) zero v = v ∷ xs
  set (x ∷ xs) (suc i) v = x ∷ set xs i v

  -- `memcpy(mem + off, src, length of src)`
  unfoldable pub copy_to : List A → ℕ → List A → List A
  copy_to mem off [] = mem
  copy_to mem off (x ∷ xs) = copy_to (set mem off x) (off + 1) xs

module _ {ℓ} {A : Type ℓ} where
  pub length-set : (xs : List A) (i : ℕ) (v : A) → length (set xs i v) ≡ length xs
  length-set [] i v = refl
  length-set (x ∷ xs) zero v = refl
  length-set (x ∷ xs) (suc i) v = ap suc (length-set xs i v)

  pub copy_to_nil : (mem : List A) (off : ℕ) → copy_to mem off [] ≡ mem
  unfolding copy_to
  copy_to_nil mem off = refl

  pub length-copy_to :
      (mem : List A) (off : ℕ) (src : List A) → length (copy_to mem off src) ≡ length mem
  unfolding copy_to
  length-copy_to mem off [] = refl
  length-copy_to mem off (x ∷ xs) =
      length-copy_to (set mem off x) (off + 1) xs ∙ length-set mem off x

  pub get_or-set :
      (xs : List A) (i j : ℕ) (v d : A)
      → i < length xs
      → get_or (set xs i v) j d ≡ (if i == j then v else get_or xs j d)
  get_or-set [] i j v d h = absurd (omega arith)
  get_or-set (x ∷ xs) zero zero v d h = refl
  get_or-set (x ∷ xs) zero (suc j) v d h = ground arith
  get_or-set (x ∷ xs) (suc i) zero v d h = ground arith
  get_or-set (x ∷ xs) (suc i) (suc j) v d h = ground (arith, get_or-set xs i j v d (omega arith))

  get_or-cons_sub :
      (x : A) (xs : List A) (i j : ℕ) (d : A)
      → i < j
      → get_or (x ∷ xs) (j - i) d ≡ get_or xs (j - (i + 1)) d
  get_or-cons_sub x xs i j d h = ap (λ k. get_or (x ∷ xs) k d) (step i j h)
    where
      step : (i j : ℕ) → i < j → j - i ≡ suc (j - (i + 1))
      step i j h = omega arith

module _ {A : Type 0} where
  -- What a copy inside the block leaves at each place.
  pub get_or-copy_to :
      (mem : List A) (off : ℕ) (src : List A) (j : ℕ) (d : A)
      → off + length src ≤ length mem
      → get_or (copy_to mem off src) j d
        ≡ (if leb off j && ltb j (off + length src) then get_or src (j - off) d else get_or mem j d)
  unfolding copy_to
  get_or-copy_to mem off [] j d h = ground arith
  get_or-copy_to mem off (x ∷ xs) j d h = ground (
    arith,
    get_or-copy_to (set mem off x) (off + 1) xs j d,
    get_or-set mem off j x d,
    length-set mem off x,
    get_or-cons_sub x xs off j d,
  )

  -- A copy to the front of a block that is at least as long.
  pub copy_to_front :
      (mem src : List A) (d : A)
      → length src ≤ length mem
      → copy_to mem 0 src ≡ src ++ drop (length src) mem
  copy_to_front mem src d h =
      list_ext _ _ d
        (omega (
          arith,
          length-copy_to mem 0 src,
          length-append src (drop (length src) mem),
          length-drop (length src) mem,
        ))
        λ i p. ground (
          arith,
          get_or-copy_to mem 0 src i d,
          get_or-append src (drop (length src) mem) i d,
          get_or-drop (length src) (i - length src) mem d,
        )

  -- Two blocks copied one behind the other.
  pub copy_to_two :
      (mem xs ys : List A) (d : A)
      → length xs + length ys ≤ length mem
      → copy_to (copy_to mem 0 xs) (length xs) ys ≡ copy_to mem 0 (xs ++ ys)
  copy_to_two mem xs ys d h =
      list_ext _ _ d
        (omega (
          arith,
          length-copy_to (copy_to mem 0 xs) (length xs) ys,
          length-copy_to mem 0 xs,
          length-copy_to mem 0 (xs ++ ys),
        ))
        λ i p. ground (
          arith,
          length-append xs ys,
          length-copy_to mem 0 xs,
          get_or-copy_to mem 0 xs i d,
          get_or-copy_to mem 0 (xs ++ ys) i d,
          get_or-copy_to (copy_to mem 0 xs) (length xs) ys i d,
          get_or-append xs ys i d,
        )

  -- The block that was copied, and a block before it.
  pub slice-copy_to :
      (mem : List A) (off n : ℕ) (xs : List A) (d : A)
      → length xs ≡ n
      → off + n ≤ length mem
      → take n (drop off (copy_to mem off xs)) ≡ xs
  slice-copy_to mem off n xs d e h =
      list_ext _ _ d
        (omega (
          arith,
          length-take n (drop off (copy_to mem off xs)),
          length-drop off (copy_to mem off xs),
          length-copy_to mem off xs,
        ))
        λ i p. ground (
          arith,
          length-take n (drop off (copy_to mem off xs)),
          get_or-take n i (drop off (copy_to mem off xs)) d,
          get_or-drop off i (copy_to mem off xs) d,
          get_or-copy_to mem off xs (off + i) d,
        )

  pub slice-copy_to_before :
      (mem : List A) (off off' n : ℕ) (xs : List A) (d : A)
      → off' + n ≤ off
      → off + length xs ≤ length mem
      → take n (drop off' (copy_to mem off xs)) ≡ take n (drop off' mem)
  slice-copy_to_before mem off off' n xs d e h =
      list_ext _ _ d
        (omega (
          arith,
          length-take n (drop off' (copy_to mem off xs)),
          length-drop off' (copy_to mem off xs),
          length-copy_to mem off xs,
          length-take n (drop off' mem),
          length-drop off' mem,
        ))
        λ i p. ground (
          arith,
          length-take n (drop off' (copy_to mem off xs)),
          get_or-take n i (drop off' (copy_to mem off xs)) d,
          get_or-take n i (drop off' mem) d,
          get_or-drop off' i (copy_to mem off xs) d,
          get_or-drop off' i mem d,
          get_or-copy_to mem off xs (off' + i) d,
        )
