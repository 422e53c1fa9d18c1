-- ===== src/Race/Winner.antt =====
-- A synchronized race: one thread at a time is inside the critical section, and the first one there is
-- the only winner.
use ridingthecode.Common.{
  ℕ, Bool, true, false, List, [], ◌∷◌, Option, none, some, ltb, if◌then◌else◌, ◌≡◌, ◌≢◌, refl, ap,
  sym, ◌∙◌, length, subst, inl, inr, ◌≤◌, ◌⊎◌,
}
use ridingthecode.Race.{
  Phase, suspended, driving, at_line, testing, sending, setting, leaving, returned, Race, Waited,
  started, resumed, resume_all, Message, dispatch, Event, message, step, run,
}
use ridingthecode.Race.Section.{
  wnd_proc_there, announced-le, is_inside, Settled, Inside, Consistent, OneWinner,
}
use ridingthecode.Race.Calm.{AreCalm, IsSafe, run-IsSafe}

-- The cars wait, and nobody has won.
pub record IsFresh (r : Race) : Type 0 where
  pub waits : (c : ℕ) → r.cars c ≡ suspended
  pub no_winner : r.winner ≡ false
  pub no_message : r.announced ≡ []
  pub window : r.destroyed ≡ false

-- A car that waited has not been inside the section, and has not returned.
resumed_waiting :
    (b : Bool) (phase : Phase)
    → phase ≡ suspended
    → ((if b then resumed phase else phase) ≡ driving 0)
      ⊎ ((if b then resumed phase else phase) ≡ suspended)
unfolding resumed
resumed_waiting true phase e = inl (ap resumed e)
resumed_waiting false phase e = inr e

waiting :
    {phase : Phase}
    → (phase ≡ driving 0) ⊎ (phase ≡ suspended)
    → (is_inside phase ≢ true) × (phase ≢ returned)
waiting (inl e) = (λ i. cc, λ i. cc)
waiting (inr e) = (λ i. cc, λ i. cc)

rbuttondown-OneWinner :
    (w : Waited) (r : Race) → IsFresh r → OneWinner (step (message w Message.rbuttondown) r)
unfolding step dispatch started resume_all resumed
rbuttondown-OneWinner w r f =
    subst OneWinner (sym (wnd_proc_there w Message.rbuttondown r f.window)) (record {
      is_global = refl;
      consistent = subst (λ b. Settled b r.announced) (sym f.no_winner) f.no_message;
      is_owner = λ c i. absurd ((waiting (resumed_waiting (ltb c 5) (r.cars c) (f.waits c))).0 i);
      has_winner = λ c i. absurd ((waiting (resumed_waiting (ltb c 5) (r.cars c) (f.waits c))).1 i);
    })

Inside-won : (phase : Phase) (xs : List ℕ) → Inside phase true xs → length xs ≡ 1
Inside-won testing xs h = h
Inside-won sending xs h = cc
Inside-won setting xs h = h
Inside-won leaving xs h = h.1
Inside-won suspended xs h = absurd h
Inside-won (driving i) xs h = absurd h
Inside-won at_line xs h = absurd h
Inside-won returned xs h = absurd h

exactly_one :
    (o : Option ℕ) (cars : ℕ → Phase) (xs : List ℕ) → Consistent o cars true xs → length xs ≡ 1
exactly_one none cars xs h = h
exactly_one (some c) cars xs h = Inside-won (cars c) xs h

rbuttondown-IsSafe :
    (w : Waited) (r : Race) → IsFresh r → IsSafe (step (message w Message.rbuttondown) r)
unfolding step dispatch started
rbuttondown-IsSafe w r f = inl (
  ap (λ q. q.destroyed) (wnd_proc_there w Message.rbuttondown r f.window) ∙ f.window,
  rbuttondown-OneWinner w r f,
)

IsSafe-le : (r : Race) → IsSafe r → length r.announced ≤ 1
IsSafe-le r (inl (g, h)) = announced-le h
IsSafe-le r (inr (g, l)) = l

IsSafe-there : (r : Race) → IsSafe r → r.destroyed ≡ false → OneWinner r
IsSafe-there r (inl (g, h)) e = h
IsSafe-there r (inr (g, l)) e = cc

-- In a race that is started with the right button while all cars wait, nobody has won and the window is
-- there, whatever the order in which the threads of the five cars run and the window gets other messages
-- than a second right button, at most one car is announced as the winner.
pub one_winner :
    (w : Waited) (es : List Event) (r : Race)
    → AreCalm es
    → IsFresh r
    → length (run (message w Message.rbuttondown ∷ es) r).announced ≤ 1
unfolding run
one_winner w es r k f =
    let r' = step (message w Message.rbuttondown) r in
    IsSafe-le (run es r') (run-IsSafe es r' k (rbuttondown-IsSafe w r f))

-- In a race that is started with the right button while all cars wait and nobody has won, whatever the
-- order in which the threads of the five cars run and the window gets other messages than a second right
-- button, exactly one car is announced as the winner by the time that the thread of any car has returned,
-- where the window has not been destroyed by then.
pub winner_by_return :
    (w : Waited) (es : List Event) (r : Race) (c : ℕ)
    → AreCalm es
    → IsFresh r
    → (run (message w Message.rbuttondown ∷ es) r).destroyed ≡ false
    → (run (message w Message.rbuttondown ∷ es) r).cars c ≡ returned
    → length (run (message w Message.rbuttondown ∷ es) r).announced ≡ 1
unfolding run
winner_by_return w es r c k f g e =
    let r' = step (message w Message.rbuttondown) r in
    let q = run es r' in
    let h = IsSafe-there q (run-IsSafe es r' k (rbuttondown-IsSafe w r f)) g in
    exactly_one q.cs q.cars q.announced
      (subst (λ b. Consistent q.cs q.cars b q.announced) (h.has_winner c e) h.consistent)
