-- ===== src/Race/Section.antt =====
-- The critical section of startCar: what the thread inside it knows, and that each step of a thread keeps
-- it.
use ridingthecode.Common.{
  ◌/◌, ℕ, suc, ◌<◌, Bool, true, false, List, [], ◌∷◌, Option, none, some, ◌==◌, leb, if◌then◌else◌,
  arith, ◌≡◌, ◌≢◌, refl, ap, sym, length, subst, Bool-cases, inl, inr, ==_refl, ==→eq, lt→ltb,
  if_false, ◌≤◌,
}
use ridingthecode.Race.{
  Phase, suspended, driving, at_line, testing, sending, setting, leaving, returned, Race, Waited,
  started, Message, dispatch, wnd_proc, set_car, enter, start_car, or_else,
}

-- Between EnterCriticalSection and LeaveCriticalSection.
abbrev pub is_inside : Phase → Bool
is_inside testing = true
is_inside sending = true
is_inside setting = true
is_inside leaving = true
is_inside _ = false

-- Before the first winner, and after it.
abbrev pub Settled : Bool → List ℕ → Type 0
Settled false announced = announced ≡ []
Settled true announced = length announced ≡ 1

-- What the thread inside the section knows at each phase.
abbrev pub Inside : Phase → Bool → List ℕ → Type 0
Inside testing winner announced = Settled winner announced
Inside sending winner announced = (winner ≡ false) × (announced ≡ [])
Inside setting winner announced = length announced ≡ 1
Inside leaving winner announced = (winner ≡ true) × (length announced ≡ 1)
Inside _ winner announced = ⊥

abbrev pub Consistent : Option ℕ → (ℕ → Phase) → Bool → List ℕ → Type 0
Consistent none cars winner announced = Settled winner announced
Consistent (some c) cars winner announced = Inside (cars c) winner announced

pub record OneWinner (r : Race) : Type 0 where
  pub is_global : r.global ≡ true
  pub consistent : Consistent r.cs r.cars r.winner r.announced
  pub is_owner : (c : ℕ) → is_inside (r.cars c) ≡ true → r.cs ≡ some c
  pub has_winner : (c : ℕ) → r.cars c ≡ returned → r.winner ≡ true

not-Inside :
    (winner : Bool) (announced : List ℕ) (phase : Phase)
    → is_inside phase ≡ false
    → Inside phase winner announced
    → ⊥
not-Inside w xs suspended e h = h
not-Inside w xs (driving i) e h = h
not-Inside w xs at_line e h = h
not-Inside w xs testing e h = cc
not-Inside w xs sending e h = cc
not-Inside w xs setting e h = cc
not-Inside w xs leaving e h = cc
not-Inside w xs returned e h = h

-- A car that is outside the section and goes on outside.
outside :
    (o : Option ℕ) (cars : ℕ → Phase) (winner : Bool) (announced : List ℕ) (c : ℕ) (phase : Phase)
    → is_inside (cars c) ≡ false
    → Consistent o cars winner announced
    → Consistent o (λ d. if d == c then phase else cars d) winner announced
outside none cars winner announced c phase e h = h
outside (some d) cars winner announced c phase e h = elim (Bool-cases (d == c)) [
  | inl t ↦ absurd (
      not-Inside winner announced (cars d)
        (subst (λ k. is_inside (cars k) ≡ false) (sym (==→eq d c t)) e) h)
  | inr f ↦ rw f h
]

set_car-outside :
    (c : ℕ) (phase : Phase) (r : Race)
    → is_inside (r.cars c) ≡ false
    → is_inside phase ≡ false
    → phase ≢ returned
    → OneWinner r
    → OneWinner (set_car c phase r)
unfolding set_car
set_car-outside c phase r was now on h = record {
  is_global = h.is_global;
  consistent = outside r.cs r.cars r.winner r.announced c phase was h.consistent;
  is_owner = λ d i. ground (arith, h.is_owner d);
  has_winner = λ d i. ground (arith, h.has_winner d);
}

-- The thread inside the section goes on inside. What it has written is in `r` already.
set_car-Inside :
    (c : ℕ) (phase : Phase) (r : Race)
    → is_inside phase ≡ true
    → r.cs ≡ some c
    → Inside phase r.winner r.announced
    → r.global ≡ true
    → ((d : ℕ) → is_inside (r.cars d) ≡ true → r.cs ≡ some d)
    → ((d : ℕ) → r.cars d ≡ returned → r.winner ≡ true)
    → OneWinner (set_car c phase r)
unfolding set_car
set_car-Inside c phase r i o knows g own has = record {
  is_global = g;
  consistent =
      subst (λ o. Consistent o (λ d. if d == c then phase else r.cars d) r.winner r.announced)
        (sym o) (rw (==_refl c) knows);
  is_owner = λ d j. ground (arith, own d);
  has_winner = λ d j. ground (arith, has d);
}

enter-OneWinner :
    (c : ℕ) (o : Option ℕ) (r : Race) → r.cs ≡ o → OneWinner r → OneWinner (or_else (enter c o r) r)
unfolding enter set_car or_else
enter-OneWinner c (some d) r e h = h
enter-OneWinner c none r e h = record {
  is_global = h.is_global;
  consistent =
      rw (==_refl c) (subst (λ o. Consistent o r.cars r.winner r.announced) e h.consistent);
  is_owner = λ d j. ground (arith, h.is_owner d);
  has_winner = λ d j. ground (arith, h.has_winner d);
}

pub wnd_proc_there :
    (w : Waited) (m : Message) (r : Race)
    → r.destroyed ≡ false
    → wnd_proc w m r ≡ dispatch m (started w r)
unfolding wnd_proc
wnd_proc_there w m r g = if_false r (dispatch m (started w r)) g

module _ (w : Waited) (c : ℕ) (r : Race) (h : OneWinner r) where
  -- What the thread of a car inside the section knows.
  knows :
      (phase : Phase)
      → r.cars c ≡ phase
      → is_inside phase ≡ true
      → (r.cs ≡ some c) × Inside phase r.winner r.announced
  knows phase e i =
      let o = h.is_owner c (subst (λ t. is_inside t ≡ true) (sym e) i) in
      (
        o,
        subst (λ t. Inside t r.winner r.announced) e
            (subst (λ o. Consistent o r.cars r.winner r.announced) o h.consistent),
      )

  testing-OneWinner :
      (b : Bool)
      → r.winner ≡ b
      → r.cars c ≡ testing
      → OneWinner (if b then set_car c setting r else set_car c sending r)
  testing-OneWinner true b e =
      let (o, k) = knows testing e refl in
      set_car-Inside c setting r refl o (subst (λ b. Settled b r.announced) b k) h.is_global
        h.is_owner h.has_winner
  testing-OneWinner false b e =
      let (o, k) = knows testing e refl in
      set_car-Inside c sending r refl o (b, subst (λ b. Settled b r.announced) b k) h.is_global
        h.is_owner h.has_winner

  sending-OneWinner :
      c < 5
      → r.destroyed ≡ false
      → r.cars c ≡ sending
      → OneWinner (set_car c setting (wnd_proc w (Message.race_condition_true c) r))
  unfolding dispatch started
  sending-OneWinner l g e =
      let (o, k) = knows sending e refl in
      subst (λ q. OneWinner (set_car c setting q))
        (sym (wnd_proc_there w (Message.race_condition_true c) r g))
        (rw (lt→ltb c 5 l) (
          set_car-Inside c setting (record (started w r) { announced = c ∷ r.announced }) refl o
            (ap (λ (xs : List ℕ). suc (length xs)) k.1) h.is_global h.is_owner h.has_winner))

  leaving-OneWinner :
      r.cars c ≡ leaving
      → OneWinner (set_car c returned (if r.global then record r { cs = none } else r))
  unfolding set_car
  leaving-OneWinner e =
      let (o, k) = knows leaving e refl in
      subst (λ b. OneWinner (set_car c returned (if b then record r { cs = none } else r)))
        (sym h.is_global)
        (record {
          is_global = h.is_global;
          consistent = subst (λ b. Settled b r.announced) (sym k.0) k.1;
          is_owner = λ d i. ground (arith, h.is_owner d, o);
          has_winner = λ d i. k.0;
        })

  drives :
      (b : Bool) (i : ℕ)
      → is_inside (r.cars c) ≡ false
      → OneWinner (if b then set_car c (driving i) r else set_car c at_line r)
  drives true i was = set_car-outside c (driving i) r was refl (cc) h
  drives false i was = set_car-outside c at_line r was refl (cc) h

  pub thread-OneWinner :
      (phase : Phase)
      → c < 5
      → r.destroyed ≡ false
      → r.cars c ≡ phase
      → OneWinner (or_else (start_car w c phase r) r)
  unfolding start_car or_else
  thread-OneWinner suspended l g e = h
  thread-OneWinner (driving i) l g e =
      drives (leb i (r.cx_client / 2)) (suc i) (subst (λ t. is_inside t ≡ false) (sym e) refl)
  thread-OneWinner at_line l g e =
      subst (λ b. OneWinner (or_else (if b then enter c r.cs r else some (set_car c testing r)) r))
        (sym h.is_global) (enter-OneWinner c r.cs r refl h)
  thread-OneWinner testing l g e = testing-OneWinner r.winner refl e
  thread-OneWinner sending l g e = sending-OneWinner l g e
  thread-OneWinner setting l g e =
      let (o, k) = knows setting e refl in
      set_car-Inside c leaving (record r { winner = true }) refl o (refl, k) h.is_global h.is_owner
        (λ d i. refl)
  thread-OneWinner leaving l g e = leaving-OneWinner e
  thread-OneWinner returned l g e = h

Settled-le : (w : Bool) (xs : List ℕ) → Settled w xs → length xs ≤ 1
Settled-le false xs h = rw h (omega arith)
Settled-le true xs h = omega arith

Inside-le : (phase : Phase) (w : Bool) (xs : List ℕ) → Inside phase w xs → length xs ≤ 1
Inside-le testing w xs h = Settled-le w xs h
Inside-le sending w xs h = rw h.1 (omega arith)
Inside-le setting w xs h = omega arith
Inside-le leaving w xs h = omega (arith, h.1)
Inside-le suspended w xs h = absurd h
Inside-le (driving i) w xs h = absurd h
Inside-le at_line w xs h = absurd h
Inside-le returned w xs h = absurd h

at_most_one :
    (o : Option ℕ) (cars : ℕ → Phase) (w : Bool) (xs : List ℕ)
    → Consistent o cars w xs
    → length xs ≤ 1
at_most_one none cars w xs h = Settled-le w xs h
at_most_one (some c) cars w xs h = Inside-le (cars c) w xs h

pub announced-le : {r : Race} → OneWinner r → length r.announced ≤ 1
announced-le {r = r} h = at_most_one r.cs r.cars r.winner r.announced h.consistent
