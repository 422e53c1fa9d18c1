-- ===== src/Router/Relay/Rounds.antt =====
-- Whole runs of the emulator's loop: it sends what it received, in the order of arrival.
use mathlib.Core.List.Sublistᴰ as SublistD
use mathlib.Core.List.{Sublistᴰ, map-append}
use ridingthecode.Common.{List, [], ◌∷◌, ◌++◌, Bool}
use ridingthecode.Common.Text.{Bytes}
use ridingthecode.Router.Relay.{
  Controller, Network, Sent, Input, Round, next, exit, abort, stuck, corrupt, round, new_controller,
}
use ridingthecode.Router.Relay.Queue.{Holds, new_controller-Holds}
use ridingthecode.Router.Relay.Turns.{WholeFirst, offer, contents_of, Relays, round-Relays}

-- A turn that goes on keeps a queue of whole packets, and one that ends does so by a command.
abbrev pub Safe : Round → Type 0
Safe (next s sent rest) = (ps : List Bytes) × Holds s ps
Safe (exit n) = Unit {0}
Safe abort = Unit {0}
Safe stuck = ⊥
Safe corrupt = ⊥

Relays-Safe : (ps new : List Bytes) (r : Round) → Relays ps new r → Safe r
Relays-Safe ps new (next s sent rest) h = (h.0, h.1)
Relays-Safe ps new (exit n) h = tt
Relays-Safe ps new abort h = tt
Relays-Safe ps new stuck h = h
Relays-Safe ps new corrupt h = h

-- From a queue of whole packets, a turn whose first waiting datagram, if any, has at least a packet's
-- size leaves such a queue, or ends the program by a command; it never waits in `read` and never
-- overwrites other memory.
pub round-Safe :
    (can_open : Bytes → Bool) (net : Network) (i : Input) (s : Controller) (ps : List Bytes)
    → WholeFirst i.arrivals
    → Holds s ps
    → Safe (round can_open net i s)
round-Safe can_open net i s ps w h =
    Relays-Safe ps (offer i.arrivals) _ (round-Relays can_open net i s ps w h)

-- The datagrams sent, when a turn ends and the loop may go on.
after_round : Round → (Controller → List Sent) → List Sent
after_round (next s' sent rest) go_on = sent ++ go_on s'
after_round (exit n) go_on = []
after_round abort go_on = []
after_round stuck go_on = []
after_round corrupt go_on = []

-- the datagrams that the loop of `execute` sends before a turn ends it or the inputs end
pub run : (Bytes → Bool) → Network → List Input → Controller → List Sent
unfolding after_round
run can_open net [] s = []
run can_open net (i ∷ is) s = after_round (round can_open net i s) (λ s'. run can_open net is s')

abbrev pub AllWholeFirst : List Input → Type 0
AllWholeFirst [] = Unit {0}
AllWholeFirst (i ∷ is) = WholeFirst i.arrivals × AllWholeFirst is

abbrev pub offers : List Input → List Bytes
offers [] = []
offers (i ∷ is) = offer i.arrivals ++ offers is

after_round_in_order :
    (ps new later : List Bytes) (r : Round) (go_on : Controller → List Sent)
    → Relays ps new r
    → ((s' : Controller) (ps' : List Bytes)
        → Holds s' ps'
        → Sublistᴰ (contents_of (go_on s')) (ps' ++ later))
    → Sublistᴰ (contents_of (after_round r go_on)) (ps ++ (new ++ later))
unfolding after_round
after_round_in_order ps new later (next s' sent rest) go_on h f =
    rw (map-append (λ (m : Sent). m.content) sent (go_on s'))
      (h.2 later (contents_of (go_on s')) (f s' h.0 h.1))
after_round_in_order ps new later (exit n) go_on h f = SublistD.nil-sublist _
after_round_in_order ps new later abort go_on h f = SublistD.nil-sublist _
after_round_in_order ps new later stuck go_on h f = absurd h
after_round_in_order ps new later corrupt go_on h f = absurd h

run_in_order_from :
    (can_open : Bytes → Bool) (net : Network) (is : List Input) (s : Controller) (ps : List Bytes)
    → AllWholeFirst is
    → Holds s ps
    → Sublistᴰ (contents_of (run can_open net is s)) (ps ++ offers is)
unfolding run
run_in_order_from can_open net [] s ps w h = SublistD.nil-sublist _
run_in_order_from can_open net (i ∷ is) s ps w h =
    after_round_in_order ps (offer i.arrivals) (offers is) (round can_open net i s)
      (λ s'. run can_open net is s') (round-Relays can_open net i s ps w.0 h)
      (λ s' ps' k. run_in_order_from can_open net is s' ps' w.1 k)

-- From the start of the program, over any turns in which the first waiting datagram, if any, has at
-- least a packet's size, with any commands, losses and failures of the network, what the emulator
-- sends is a subsequence of the packets offered to it: each unchanged, none made up or doubled, in
-- the order of arrival.
pub run_in_order :
    (can_open : Bytes → Bool) (net : Network) (is : List Input)
    → AllWholeFirst is
    → Sublistᴰ (contents_of (run can_open net is (new_controller can_open))) (offers is)
run_in_order can_open net is w =
    run_in_order_from can_open net is (new_controller can_open) [] w (new_controller-Holds can_open)
