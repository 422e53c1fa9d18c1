-- ===== src/Chat/Stream/Receive.antt =====
-- `rcv_variable` gets the next bytes of the stream, however it is cut into pieces.
use ridingthecode.Common.{
  ℕ, zero, suc, ◌+◌, ◌-◌, ◌≤◌, ◌<◌, ◌≡◌, refl, sym, ap, ◌∙◌, [], ◌∷◌, ◌++◌, arith, length,
  length-append, take, drop, copy_to, copy_to_front, drop_all, append-nil, leb, ◌==◌, length-take,
  Bool-cases, inl, inr, false, true, length-drop, take_all, leb→le, take-append-drop, append_assoc,
}
use ridingthecode.Common.Text.{Bytes}
use ridingthecode.Chat.Stream.{Stream, read, rcv_loop, rcv_variable}

-- all bytes of the stream
abbrev pub bytes_of : Stream → Bytes
bytes_of [] = []
bytes_of (c ∷ cs) = c ++ bytes_of cs

-- No `read` fails before the end.
abbrev pub Flows : Stream → Type 0
Flows [] = Unit {0}
Flows (c ∷ cs) = (0 < length c) × Flows cs

length-read-le : (n : ℕ) (s : Stream) → length (read n s).0 ≤ n
unfolding read
length-read-le zero s = omega arith
length-read-le (suc n) [] = omega arith
length-read-le (suc n) (c ∷ cs) = omega (arith, length-take (suc n) c)

-- More fuel than bytes wanted changes nothing.
pub rcv_loop_fuel : (f g n : ℕ) (s : Stream) → n < f → n < g → rcv_loop f n s ≡ rcv_loop g n s
unfolding rcv_loop
rcv_loop_fuel zero g n s h k = absurd (omega arith)
rcv_loop_fuel (suc f) zero n s h k = absurd (omega arith)
rcv_loop_fuel (suc f) (suc g) n s h k =
    ground (arith, length-read-le n s, rcv_loop_fuel f g (n - length (read n s).0) (read n s).1)

pub take-append :
    (n : ℕ) (xs ys : Bytes) → length xs ≤ n → take n (xs ++ ys) ≡ xs ++ take (n - length xs) ys
take-append n [] ys h = ap (λ k. take k ys) (omega arith)
take-append zero (x ∷ xs) ys h = absurd (omega arith)
take-append (suc n) (x ∷ xs) ys h =
    ap (λ l. x ∷ l) (take-append n xs ys (omega arith) ∙ ap (λ k. xs ++ take k ys) (omega arith))

pub drop-append :
    (n : ℕ) (xs ys : Bytes) → length xs ≤ n → drop n (xs ++ ys) ≡ drop (n - length xs) ys
drop-append n [] ys h = ap (λ k. drop k ys) (omega arith)
drop-append zero (x ∷ xs) ys h = absurd (omega arith)
drop-append (suc n) (x ∷ xs) ys h =
    drop-append n xs ys (omega arith) ∙ ap (λ k. drop k ys) (omega arith)

-- One `read` takes a part of what comes next.
pub record Part (n : ℕ) (s : Stream) (part : Bytes) (s' : Stream) : Type 0 where
  pub cut : bytes_of s ≡ part ++ bytes_of s'
  pub some_bytes : 0 < n → 0 < length (bytes_of s) → 0 < length part
  pub at_most : length part ≤ n
  pub still : Flows s'

pub read-Part : (n : ℕ) (s : Stream) → Flows s → Part n s (read n s).0 (read n s).1
unfolding read
read-Part zero s h = record { cut = refl; some_bytes = λ p q. p; at_most = omega arith; still = h }
read-Part (suc n) [] h = record {
  cut = refl;
  some_bytes = λ p q. q;
  at_most = omega arith;
  still = h;
}
read-Part (suc n) (c ∷ cs) h = elim (Bool-cases (leb (length c) (suc n))) [
  | inl e ↦ rw e (record {
    cut = ap (λ l. l ++ bytes_of cs) (sym (take_all (suc n) c (leb→le (length c) (suc n) e)));
    some_bytes = λ p q. omega (arith, length-take (suc n) c, h.0);
    at_most = omega (arith, length-take (suc n) c);
    still = h.1;
  })
  | inr e ↦ rw e (record {
    cut =
        ap (λ l. l ++ bytes_of cs) (sym (take-append-drop (suc n) c))
        ∙ append_assoc (take (suc n) c) (drop (suc n) c) (bytes_of cs);
    some_bytes = λ p q. omega (arith, length-take (suc n) c, h.0);
    at_most = omega (arith, length-take (suc n) c);
    still = (left e, h.1);
  })
]
  where
    left : leb (length c) (suc n) ≡ false → 0 < length (drop (suc n) c)
    left e = ground (arith, length-drop (suc n) c)

-- what a stream becomes when its first `n` bytes are read
pub record Taken (n : ℕ) (s : Stream) (got : Bytes) (s' : Stream) : Type 0 where
  pub front : got ≡ take n (bytes_of s)
  pub behind : bytes_of s' ≡ drop n (bytes_of s)
  pub flows : Flows s'

rcv_loop-Taken :
    (f n : ℕ) (s : Stream)
    → n < f
    → Flows s
    → n ≤ length (bytes_of s)
    → Taken n s (rcv_loop f n s).0 (rcv_loop f n s).1
unfolding rcv_loop
rcv_loop-Taken zero n s h k l = absurd (omega arith)
rcv_loop-Taken (suc f) n s h k l =
    let p = read-Part n s k in
    elim (Bool-cases (length (read n s).0 == 0)) [
      | inl e ↦ rw e (record {
        front = ap (λ m. take m (bytes_of s)) (sym (none_left p e));
        behind =
            sym (p.cut ∙ ap (λ q. q ++ bytes_of (read n s).1) (empty (read n s).0 e))
            ∙ ap (λ m. drop m (bytes_of s)) (sym (none_left p e));
        flows = p.still;
      })
      | inr e ↦
          let r =
            rcv_loop-Taken f (n - length (read n s).0) (read n s).1 (less p e) p.still (enough p) in
          rw e (record {
            front =
                ap (λ q. (read n s).0 ++ q) r.front
                ∙ sym (take-append n (read n s).0 (bytes_of (read n s).1) p.at_most)
                ∙ ap (take n) (sym p.cut);
            behind =
                r.behind
                ∙ sym (drop-append n (read n s).0 (bytes_of (read n s).1) p.at_most)
                ∙ ap (drop n) (sym p.cut);
            flows = r.flows;
          })
    ]
  where
    none_left : Part n s (read n s).0 (read n s).1 → (length (read n s).0 == 0) ≡ true → n ≡ 0
    none_left p e = ground (arith, p.some_bytes)

    empty : (xs : Bytes) → (length xs == 0) ≡ true → xs ≡ []
    empty [] e = refl
    empty (x ∷ xs) e = ground arith

    less :
        Part n s (read n s).0 (read n s).1
        → (length (read n s).0 == 0) ≡ false
        → n - length (read n s).0 < f
    less p e = ground (arith, p.at_most)

    enough :
        Part n s (read n s).0 (read n s).1
        → n - length (read n s).0 ≤ length (bytes_of (read n s).1)
    enough p =
        omega
          (arith, ap length p.cut, length-append (read n s).0 (bytes_of (read n s).1), p.at_most)

pub copy_to_all : (mem xs : Bytes) → length xs ≡ length mem → copy_to mem 0 xs ≡ xs
copy_to_all mem xs q =
    copy_to_front mem xs 0 (omega arith)
    ∙ ap (λ l. xs ++ l) (drop_all (length xs) mem (omega arith))
    ∙ append-nil xs

-- `rcv_variable` fills its variable with the next bytes, if that many are to come.
pub rcv_variable-Taken :
    (incoming : Bytes) (n : ℕ) (s : Stream)
    → length incoming ≡ n
    → Flows s
    → n ≤ length (bytes_of s)
    → Taken n s (rcv_variable incoming n s).0 (rcv_variable incoming n s).1
unfolding rcv_variable
rcv_variable-Taken incoming n s e h k = record {
  front =
      copy_to_all incoming got (omega (arith, ap length t.front, length-take n (bytes_of s)))
      ∙ t.front;
  behind = t.behind;
  flows = t.flows;
}
  where
    got : Bytes
    got = (rcv_loop (n + 1) n s).0

    t : Taken n s (rcv_loop (n + 1) n s).0 (rcv_loop (n + 1) n s).1
    t = rcv_loop-Taken (n + 1) n s (omega arith) h k

-- At the end of the stream the variable keeps what it held.
pub rcv_variable_end : (incoming : Bytes) (n : ℕ) → rcv_variable incoming n [] ≡ (incoming, [])
unfolding rcv_variable rcv_loop read copy_to
rcv_variable_end incoming zero = refl
rcv_variable_end incoming (suc n) = ground arith
