-- ===== src/Serial/Session.antt =====
-- A session has one open port and one reading thread, and outside a session there is none.
use ridingthecode.Common.{
  ℕ, ◌+◌, ◌%◌, List, [], ◌∷◌, ◌++◌, Option, none, some, Bool, true, false, not, ◌&&◌, ◌==◌,
  if◌then◌else◌, arith, ◌≡◌, refl, sym, ◌∙◌, subst,
}
use ridingthecode.Serial.{
  Terminal, win_main, init, connected, connect, end_session, write_output_buffer, Message, wnd_proc,
  exec_read, wrapped, advanced, Event, message, read, step, run, vk_escape,
}

-- The port `h` and the thread `r` alone are open and running.
pub record Connected (t : Terminal) (h r : ℕ) : Type 0 where
  pub handle : t.hd_serial ≡ some h
  pub thread : t.read_thrd ≡ some r
  pub opened : (i : ℕ) → t.is_open i ≡ (i == h)
  pub running : (i : ℕ) → t.is_running i ≡ (i == r)
  pub greyed : t.can_connect ≡ false

pub record Disconnected (t : Terminal) : Type 0 where
  pub closed : (i : ℕ) → t.is_open i ≡ false
  pub stopped : (i : ℕ) → t.is_running i ≡ false
  pub enabled : t.can_connect ≡ true

abbrev SessionOf : Bool → Terminal → Type 0
SessionOf true t = (h : ℕ) × (r : ℕ) × Connected t h r
SessionOf false t = Disconnected t

-- By whether a session is on.
abbrev pub IsSession : Terminal → Type 0
IsSession t = SessionOf t.serial_on t

connect-IsSession :
    (opens : Bool) (t : Terminal)
    → Disconnected t
    → t.serial_on ≡ false
    → IsSession (connected true (init opens t).hd_serial (init opens t))
unfolding connected init
connect-IsSession true t d off = (
  t.files + 1,
  t.threads + 1,
  record {
    handle = refl;
    thread = refl;
    opened = λ i. ground (arith, d.closed i);
    running = λ i. ground (arith, d.stopped i);
    greyed = refl;
  },
)
connect-IsSession false t d off =
    subst (λ b. SessionOf b (record t { hd_serial = none })) (sym off)
      (record { closed = d.closed; stopped = d.stopped; enabled = d.enabled })

some-ne-none : {n : ℕ} → some n ≡ none → ⊥
some-ne-none e = cc

end_session-Disconnected :
    (t : Terminal) (h r : ℕ) (o q : Option ℕ)
    → Connected t h r
    → t.hd_serial ≡ o
    → t.read_thrd ≡ q
    → Disconnected (end_session o q (record t { serial_on = false; can_connect = true }))
unfolding end_session
end_session-Disconnected t h r none q c e f = absurd (some-ne-none (sym c.handle ∙ e))
end_session-Disconnected t h r (some h') none c e f = absurd (some-ne-none (sym c.thread ∙ f))
end_session-Disconnected t h r (some h') (some r') c e f = record {
  closed = λ i. ground (arith, c.opened i, c.handle, e);
  stopped = λ i. ground (arith, c.running i, c.thread, f);
  enabled = refl;
}

-- A change of nothing that belongs to a session.
same-SessionOf :
    (b : Bool) (t q : Terminal)
    → SessionOf b t
    → q.hd_serial ≡ t.hd_serial
    → q.read_thrd ≡ t.read_thrd
    → q.is_open ≡ t.is_open
    → q.is_running ≡ t.is_running
    → q.can_connect ≡ t.can_connect
    → SessionOf b q
same-SessionOf true t q (h, r, c) eh et eo er ec = (
  h,
  r,
  record {
    handle = eh ∙ c.handle;
    thread = et ∙ c.thread;
    opened = rw eo c.opened;
    running = rw er c.running;
    greyed = ec ∙ c.greyed;
  },
)
same-SessionOf false t q d eh et eo er ec = record {
  closed = rw eo d.closed;
  stopped = rw er d.stopped;
  enabled = ec ∙ d.enabled;
}

IsSession-if :
    (b : Bool) (t q : Terminal)
    → (b ≡ true → IsSession t)
    → (b ≡ false → IsSession q)
    → IsSession (if b then t else q)
IsSession-if true t q h k = h refl
IsSession-if false t q h k = k refl

end_session-serial_on :
    (o q : Option ℕ) (t : Terminal) → (end_session o q t).serial_on ≡ t.serial_on
unfolding end_session
end_session-serial_on none q t = refl
end_session-serial_on (some h) none t = refl
end_session-serial_on (some h) (some r) t = refl

and_true : (a b : Bool) → (a && b) ≡ true → b ≡ true
and_true true b e = e
and_true false b e = cc

-- CreateThread gives a thread where it is called.
abbrev pub Starts : Event → Type 0
Starts (message (Message.connect_to opens false)) = ⊥
Starts _ = Unit {0}

abbrev pub AllStart : List Event → Type 0
AllStart [] = Unit {0}
AllStart (e ∷ es) = Starts e × AllStart es

module _ (t : Terminal) (s : IsSession t) where
  connecting :
      (opens b : Bool)
      → t.serial_on ≡ b
      → IsSession (if b then t else connected true (init opens t).hd_serial (init opens t))
  connecting opens true e = s
  connecting opens false e = connect-IsSession opens t (subst (λ b. SessionOf b t) e s) e

  leaving :
      (key : ℕ) (b : Bool)
      → t.serial_on ≡ b
      → IsSession (
          if key == vk_escape && b
          then end_session t.hd_serial t.read_thrd
              (record t { serial_on = false; can_connect = true })
          else t)
  leaving key b e =
      let t' : Terminal = record t { serial_on = false; can_connect = true } in
      IsSession-if (key == vk_escape && b) (end_session t.hd_serial t.read_thrd t') t
        (λ w.
          let (h, r, c) : SessionOf true t =
            subst (λ b. SessionOf b t) (e ∙ and_true (key == vk_escape) b w) s in
          subst (λ b. SessionOf b (end_session t.hd_serial t.read_thrd t'))
            (sym (end_session-serial_on t.hd_serial t.read_thrd t'))
            (end_session-Disconnected t h r t.hd_serial t.read_thrd c refl refl))
        (λ _. s)

  sent : (o : Option ℕ) (c : ℕ) (succeeds : Bool) → IsSession (write_output_buffer o c succeeds t)
  unfolding write_output_buffer
  sent none c succeeds = s
  sent (some h) c succeeds =
      IsSession-if succeeds (record t { written = t.written ++ (h, c % 256) ∷ [] }) t
        (λ _. same-SessionOf t.serial_on t _ s refl refl refl refl refl) (λ _. s)

  writing : (c : ℕ) (succeeds : Bool) → IsSession (wnd_proc (Message.char c succeeds) t)
  unfolding wnd_proc
  writing c succeeds =
      IsSession-if (t.serial_on && not (c == vk_escape))
        (write_output_buffer t.hd_serial c succeeds t) t (λ _. sent t.hd_serial c succeeds) (λ _. s)

  step-IsSession : (e : Event) → Starts e → IsSession (step e t)
  unfolding step wnd_proc connect exec_read wrapped advanced
  step-IsSession (message (Message.connect_to opens true)) n = connecting opens t.serial_on refl
  step-IsSession (message (Message.connect_to opens false)) n = absurd n
  step-IsSession (message Message.help) n = s
  step-IsSession (message Message.port_comm1) n =
      same-SessionOf t.serial_on t _ s refl refl refl refl refl
  step-IsSession (message Message.port_comm3) n =
      same-SessionOf t.serial_on t _ s refl refl refl refl refl
  step-IsSession (message Message.data_settings) n = s
  step-IsSession (message (Message.char c succeeds)) n = writing c succeeds
  step-IsSession (message (Message.keydown key)) n = leaving key t.serial_on refl
  step-IsSession (message Message.destroy) n =
      same-SessionOf t.serial_on t _ s refl refl refl refl refl
  step-IsSession (message Message.other) n = s
  step-IsSession (read got) n =
      IsSession-if t.serial_on (exec_read got t) t
        (λ _. same-SessionOf t.serial_on t _ s refl refl refl refl refl) (λ _. s)

run-IsSession_from :
    (es : List Event) (t : Terminal) → AllStart es → IsSession t → IsSession (run es t)
unfolding run
run-IsSession_from [] t n s = s
run-IsSession_from (e ∷ es) t n s = run-IsSession_from es (step e t) n.1 (step-IsSession t s e n.0)

-- From the start, after any messages and reads in which every CreateThread gives a thread, whether ports
-- open or not: in a session exactly one port
-- is open and exactly one reading thread runs, the ones that the program holds, and Connect is greyed;
-- outside a session no port is open, no thread runs and Connect is enabled.
pub run-IsSession :
    (char_width line_height : ℕ) (es : List Event)
    → AllStart es
    → IsSession (run es (win_main char_width line_height))
unfolding win_main
run-IsSession w h es n =
    run-IsSession_from es (win_main w h) n
      (record { closed = λ i. refl; stopped = λ i. refl; enabled = refl })
