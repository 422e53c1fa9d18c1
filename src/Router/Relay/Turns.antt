-- ===== src/Router/Relay/Turns.antt =====
-- What the parts of a turn of the emulator's loop do to the packets that are queued, sent and taken in.
use mathlib.Core.List.Sublistᴰ as SublistD
use mathlib.Core.List.{Sublistᴰ}
use ridingthecode.Common.{
  ℕ, ◌≤◌, ◌≡◌, refl, sym, ap, List, [], ◌∷◌, ◌++◌, arith, length, true, false, take, ltb,
  if◌then◌else◌, Bool, Bool-cases, inl, inr, map, append_assoc, subst, ◌⊎◌, Option-cases,
}
use ridingthecode.Common.Text.{Bytes}
use ridingthecode.Packet.{p_size}
use ridingthecode.Router.Noise.{NoiseController, Outcome, running, exited, aborted, check_command}
use ridingthecode.Router.Relay.{
  Controller, Network, Sent, transmit_data, Arrival, datagram, read_error, Input, Round, next, exit,
  abort, stuck, corrupt, round, socket_turn, command_turn, receive_turn, transmit_turn, end_of_turn,
  Line,
}
use ridingthecode.Router.Relay.Queue.{Holds}
use ridingthecode.Router.Relay.Receive.{receive_data_lem}
use ridingthecode.Router.Relay.Transmit.{transmit_data_lem, transmit_data_idle, fate}

-- What is waiting at the start of a turn is nothing, or begins with a datagram of a packet's size
-- or more.
abbrev pub WholeFirst : List Arrival → Type 0
WholeFirst [] = Unit {0}
WholeFirst (datagram d ∷ rest) = p_size ≤ length d
WholeFirst (read_error ∷ rest) = ⊥

-- the packet that a turn may take in
abbrev pub offer : List Arrival → List Bytes
offer (datagram d ∷ rest) = take p_size d ∷ []
offer _ = []

abbrev pub contents_of : List Sent → List Bytes
contents_of = map (λ (m : Sent). m.content)

-- A turn that starts with the packets `ps` queued and is offered `new` ends with a queue behind
-- which all that is sent later comes, and what it sends stands before that in `ps ++ new`.
abbrev pub Relays : List Bytes → List Bytes → Round → Type 0
Relays ps new (next s sent rest) =
    (ps' : List Bytes) × Holds s ps'
    × ((later out : List Bytes)
        → Sublistᴰ out (ps' ++ later)
        → Sublistᴰ (contents_of sent ++ out) (ps ++ (new ++ later)))
Relays ps new (exit n) = Unit {0}
Relays ps new abort = Unit {0}
Relays ps new stuck = ⊥
Relays ps new corrupt = ⊥

-- One more entry in the middle of a list.
insert_middle : (ps later : List Bytes) (d : Bytes) → Sublistᴰ (ps ++ later) (ps ++ d ∷ later)
insert_middle [] later d = Sublistᴰ.cons (SublistD.refl later)
insert_middle (p ∷ ps) later d = Sublistᴰ.cons-cons refl (insert_middle ps later d)

-- what the sending half of a turn does to the queue
abbrev Sends : List Bytes → List Sent → List Bytes → Type 0
Sends ps sent ps' =
    (later out : List Bytes)
    → Sublistᴰ out (ps' ++ later)
    → Sublistᴰ (contents_of sent ++ out) (ps ++ later)

fate_contents :
    (net : Network) (random : ℕ) (noise : NoiseController) (p : Bytes)
    → (contents_of (fate net random noise p).1 ≡ [])
      ⊎ (contents_of (fate net random noise p).1 ≡ p ∷ [])
unfolding fate
fate_contents net random noise p = ground arith

contents-Sends :
    (p : Bytes) (ps : List Bytes) (sent : List Sent)
    → (contents_of sent ≡ []) ⊎ (contents_of sent ≡ p ∷ [])
    → Sends (p ∷ ps) sent ps
contents-Sends p ps sent (inl e) later out h = rw e (Sublistᴰ.cons h)
contents-Sends p ps sent (inr e) later out h = rw e (Sublistᴰ.cons-cons refl h)

transmit_data-Sends :
    (net : Network) (random : ℕ) (s : Controller) (ps : List Bytes)
    → Holds s ps
    → (ps' : List Bytes) × Holds (transmit_data net random s).after ps'
      × Sends ps (transmit_data net random s).sent ps'
transmit_data-Sends net random s [] h = (
  [],
  rw (transmit_data_idle net random h) h,
  rw (transmit_data_idle net random h) (λ later out k. k),
)
transmit_data-Sends net random s (p ∷ ps) h = (
  ps,
  (transmit_data_lem net random p ps h).0,
  contents-Sends p ps (transmit_data net random s).sent (
      subst (λ l. (contents_of l ≡ []) ⊎ (contents_of l ≡ p ∷ []))
        (sym (ap (λ t. t.1) (transmit_data_lem net random p ps h).2))
        (fate_contents net random s.noise p)),
)

transmit_turn-Sends :
    (net : Network) (i : Input) (s : Controller) (ps : List Bytes)
    → Holds s ps
    → (ps' : List Bytes) × Holds (transmit_turn net i s).after ps'
      × Sends ps (transmit_turn net i s).sent ps'
unfolding transmit_turn
transmit_turn-Sends net i s ps h = elim (Bool-cases i.writable) [
  | inl e ↦ rw e (transmit_data-Sends net i.random s ps h)
  | inr e ↦ rw e (ps, h, λ later out k. k)
]

grow :
    (few : Bool) (ps later out : List Bytes) (d : Bytes)
    → Sublistᴰ out ((if few then ps ++ d ∷ [] else ps) ++ later)
    → Sublistᴰ out (ps ++ d ∷ later)
grow true ps later out d h = subst (λ l. Sublistᴰ out l) (append_assoc ps (d ∷ []) later) h
grow false ps later out d h = SublistD.trans h (insert_middle ps later d)

receive_turn-Relays :
    (sent : List Sent) (s : Controller) (ps ps' : List Bytes) (arrivals : List Arrival)
    → WholeFirst arrivals
    → Holds s ps'
    → Sends ps sent ps'
    → Relays ps (offer arrivals) (receive_turn sent s arrivals)
unfolding receive_turn end_of_turn
receive_turn-Relays sent s ps ps' [] w h f = (ps', h, f)
receive_turn-Relays sent s ps ps' (datagram d ∷ rest) w h f =
    let (s', e, k, _) = receive_data_lem ps' d rest h w in
    rw e (
      _,
      k,
      λ later out g.
          f (take p_size d ∷ later) out
            (grow (ltb (length ps') 97) ps' later out (take p_size d) g),
    )
receive_turn-Relays sent s ps ps' (read_error ∷ rest) w h f = absurd w

socket_turn-Relays :
    (net : Network) (i : Input) (s : Controller) (ps : List Bytes)
    → WholeFirst i.arrivals
    → Holds s ps
    → Relays ps (offer i.arrivals) (socket_turn net i s)
unfolding socket_turn
socket_turn-Relays net i s ps w h =
    let (ps', k, f) = transmit_turn-Sends net i s ps h in
    receive_turn-Relays (transmit_turn net i s).sent (transmit_turn net i s).after ps ps' i.arrivals
      w k f

-- New settings and output leave the queue alone.
settings-Holds :
    (s : Controller) (ps : List Bytes) (noise : NoiseController) (console : List Line)
    → Holds s ps
    → Holds (record s { noise = noise; console = console }) ps
settings-Holds s ps noise console h = record {
  valid = h.valid;
  whole = h.whole;
  sized = h.sized;
  queue = h.queue;
}

command_turn-Relays :
    (net : Network) (i : Input) (s : Controller) (ps : List Bytes) (o : Outcome)
    → WholeFirst i.arrivals
    → Holds s ps
    → Relays ps (offer i.arrivals) (command_turn net i s o)
unfolding command_turn
command_turn-Relays net i s ps (running noise out) w h =
    socket_turn-Relays net i _ ps w (settings-Holds s ps noise _ h)
command_turn-Relays net i s ps (exited n) w h = tt
command_turn-Relays net i s ps aborted w h = tt

-- A turn of the loop that meets no short datagram never waits in `read` and never overwrites other
-- memory; unless a command ends the program, it keeps the queue of whole packets, and it takes in
-- and sends packets in order.
pub round-Relays :
    (can_open : Bytes → Bool) (net : Network) (i : Input) (s : Controller) (ps : List Bytes)
    → WholeFirst i.arrivals
    → Holds s ps
    → Relays ps (offer i.arrivals) (round can_open net i s)
unfolding round
round-Relays can_open net i s ps w h = elim (Option-cases i.line) [
  | inl e ↦ rw (e, round) (socket_turn-Relays net i s ps w h)
  | inr (line, e) ↦
      rw (e, round)
        (command_turn-Relays net i s ps (check_command can_open i.garbage s.noise line) w h)
]
