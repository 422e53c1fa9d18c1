-- ===== src/Race/Calm.antt =====
-- The messages of a race that is on: none of them touches what the threads know.
use ridingthecode.Common.{
  ℕ, ◌<◌, subst, Bool, true, false, List, [], ◌∷◌, Option, none, some, ltb, if◌then◌else◌, ◌≡◌,
  refl, sym, ◌∙◌, arith, inr, ◌⊎◌, length, ◌≤◌, inl, Bool-cases,
}
use ridingthecode.Race.{
  Phase, suspended, driving, at_line, testing, sending, setting, leaving, returned, Race, started,
  resumed, resume_all, Message, dispatch, wnd_proc, Event, message, thread, step, run, Waited,
  enter, start_car, or_else, set_car,
}
use ridingthecode.Race.Section.{
  wnd_proc_there, is_inside, Inside, Consistent, OneWinner, thread-OneWinner, announced-le,
}

resumed-is_inside : (phase : Phase) → is_inside (resumed phase) ≡ is_inside phase
unfolding resumed
resumed-is_inside suspended = refl
resumed-is_inside (driving i) = refl
resumed-is_inside at_line = refl
resumed-is_inside testing = refl
resumed-is_inside sending = refl
resumed-is_inside setting = refl
resumed-is_inside leaving = refl
resumed-is_inside returned = refl

-- Only a thread that had not run yet changes.
resumed_inside : (phase : Phase) → is_inside phase ≡ true → resumed phase ≡ phase
unfolding resumed
resumed_inside testing e = refl
resumed_inside sending e = refl
resumed_inside setting e = refl
resumed_inside leaving e = refl
resumed_inside suspended e = cc
resumed_inside (driving i) e = refl
resumed_inside at_line e = refl
resumed_inside returned e = refl

resumed-returned : (phase : Phase) → resumed phase ≡ returned → phase ≡ returned
unfolding resumed
resumed-returned suspended e = cc
resumed-returned (driving i) e = e
resumed-returned at_line e = e
resumed-returned testing e = e
resumed-returned sending e = e
resumed-returned setting e = e
resumed-returned leaving e = e
resumed-returned returned e = e

Inside-resumed :
    (b winner : Bool) (announced : List ℕ) (phase : Phase)
    → Inside phase winner announced
    → Inside (if b then resumed phase else phase) winner announced
unfolding resumed
Inside-resumed false w xs phase h = h
Inside-resumed true w xs suspended h = h
Inside-resumed true w xs (driving i) h = h
Inside-resumed true w xs at_line h = h
Inside-resumed true w xs testing h = h
Inside-resumed true w xs sending h = h
Inside-resumed true w xs setting h = h
Inside-resumed true w xs leaving h = h
Inside-resumed true w xs returned h = h

Consistent-resume_all :
    (o : Option ℕ) (cars : ℕ → Phase) (winner : Bool) (announced : List ℕ)
    → Consistent o cars winner announced
    → Consistent o (resume_all cars) winner announced
unfolding resume_all
Consistent-resume_all none cars winner announced h = h
Consistent-resume_all (some c) cars winner announced h =
    Inside-resumed (ltb c 5) winner announced (cars c) h

-- No further race is started, and the threads are those of the five cars. RACE_CONDITION_TRUE comes from
-- these threads only, and WM_CREATE once.
abbrev pub IsCalm : Event → Type 0
IsCalm (message w Message.rbuttondown) = ⊥
IsCalm (message w (Message.race_condition_true c)) = ⊥
IsCalm (message w Message.create) = ⊥
IsCalm (message w _) = Unit {0}
IsCalm (thread w c) = c < 5

abbrev pub AreCalm : List Event → Type 0
AreCalm [] = Unit {0}
AreCalm (e ∷ es) = IsCalm e × AreCalm es

module _ (r : Race) (h : OneWinner r) where
  same-OneWinner :
      (q : Race)
      → q.global ≡ r.global
      → q.cs ≡ r.cs
      → q.cars ≡ r.cars
      → q.winner ≡ r.winner
      → q.announced ≡ r.announced
      → OneWinner q
  same-OneWinner q g o p w a = record {
    is_global = g ∙ h.is_global;
    consistent = rw (o, p, w, a) h.consistent;
    is_owner = rw (o, p) h.is_owner;
    has_winner = rw (p, w) h.has_winner;
  }

  dispatch-OneWinner :
      (w : Waited) (m : Message) → IsCalm (message w m) → OneWinner (dispatch m (started w r))
  unfolding dispatch started resume_all
  dispatch-OneWinner w Message.create n = absurd n
  dispatch-OneWinner w (Message.size cx cy) n = same-OneWinner _ refl refl refl refl refl
  dispatch-OneWinner w Message.paint n = same-OneWinner _ refl refl refl refl refl
  dispatch-OneWinner w (Message.race_condition_true c) n = absurd n
  dispatch-OneWinner w Message.rbuttondown n = absurd n
  dispatch-OneWinner w Message.lbuttondown n = record {
    is_global = h.is_global;
    consistent = Consistent-resume_all r.cs r.cars r.winner r.announced h.consistent;
    is_owner = λ c i. h.is_owner c (was_inside (ltb c 5) (r.cars c) i);
    has_winner = λ c i. h.has_winner c (was_returned (ltb c 5) (r.cars c) i);
  }
    where
      was_inside :
          (b : Bool) (phase : Phase)
          → is_inside (if b then resumed phase else phase) ≡ true
          → is_inside phase ≡ true
      was_inside true phase i = sym (resumed-is_inside phase) ∙ i
      was_inside false phase i = i

      was_returned :
          (b : Bool) (phase : Phase)
          → (if b then resumed phase else phase) ≡ returned
          → phase ≡ returned
      was_returned true phase i = resumed-returned phase i
      was_returned false phase i = i
  dispatch-OneWinner w Message.destroy n = same-OneWinner _ refl refl refl refl refl
  dispatch-OneWinner w Message.other n = same-OneWinner _ refl refl refl refl refl

  step-OneWinner : (e : Event) → IsCalm e → r.destroyed ≡ false → OneWinner (step e r)
  unfolding step
  step-OneWinner (message w m) n g =
      subst OneWinner (sym (wnd_proc_there w m r g)) (dispatch-OneWinner w m n)
  step-OneWinner (thread w c) n g = thread-OneWinner w c r h (r.cars c) n g refl

-- Without its window a race announces nobody any more.
entered-gone :
    (c : ℕ) (o : Option ℕ) (r : Race)
    → ((or_else (enter c o r) r).destroyed ≡ r.destroyed)
      × ((or_else (enter c o r) r).announced ≡ r.announced)
unfolding enter or_else set_car
entered-gone c none r = (refl, refl)
entered-gone c (some d) r = (refl, refl)

thread-gone :
    (w : Waited) (c : ℕ) (phase : Phase) (r : Race)
    → r.destroyed ≡ true
    → ((or_else (start_car w c phase r) r).destroyed ≡ true)
      × ((or_else (start_car w c phase r) r).announced ≡ r.announced)
unfolding start_car or_else set_car wnd_proc
thread-gone w c suspended r g = (g, refl)
thread-gone w c (driving i) r g = ground arith
thread-gone w c at_line r g = entered r.global
  where
    entered :
        (b : Bool)
        → ((or_else (if b then enter c r.cs r else some (set_car c testing r)) r).destroyed ≡ true)
          × ((or_else (if b then enter c r.cs r else some (set_car c testing r)) r).announced
              ≡ r.announced)
    entered true = ((entered-gone c r.cs r).0 ∙ g, (entered-gone c r.cs r).1)
    entered false = (g, refl)
thread-gone w c testing r g = ground arith
thread-gone w c sending r g = ground arith
thread-gone w c setting r g = (g, refl)
thread-gone w c leaving r g = ground arith
thread-gone w c returned r g = (g, refl)

step-gone :
    (e : Event) (r : Race)
    → r.destroyed ≡ true
    → ((step e r).destroyed ≡ true) × ((step e r).announced ≡ r.announced)
unfolding step wnd_proc
step-gone (message w m) r g = ground arith
step-gone (thread w c) r g = thread-gone w c (r.cars c) r g

-- A race with its window, or one without it that has announced at most one car.
abbrev pub IsSafe : Race → Type 0
IsSafe r = ((r.destroyed ≡ false) × OneWinner r) ⊎ ((r.destroyed ≡ true) × (length r.announced ≤ 1))

step-IsSafe : (e : Event) (r : Race) → IsCalm e → IsSafe r → IsSafe (step e r)
step-IsSafe e r n (inr (g, l)) =
    let (g', a) = step-gone e r g in inr (g', subst (λ xs. length xs ≤ 1) (sym a) l)
step-IsSafe e r n (inl (g, h)) =
    let k = step-OneWinner r h e n g in
    elim (Bool-cases (step e r).destroyed) [ inl y ↦ inr (y, announced-le k) | inr y ↦ inl (y, k) ]

pub run-IsSafe : (es : List Event) (r : Race) → AreCalm es → IsSafe r → IsSafe (run es r)
unfolding run
run-IsSafe [] r w h = h
run-IsSafe (e ∷ es) r w h = run-IsSafe es (step e r) w.1 (step-IsSafe e r w.0 h)
