-- ===== src/Router/Relay/Tests.antt =====
-- Uses of the laws of 7005_NVirt/NVirt/src/Controller.cpp.
use mathlib.Core.List.{Sublistᴰ}
use ridingthecode.Common.{
  ℕ, ◌+◌, ◌≤◌, ◌≡◌, [], ◌∷◌, Bool, true, some, none, arith, length, take, replicate,
  length-replicate,
}
use ridingthecode.Common.Int.{pos}
use ridingthecode.Common.Text.{Bytes}
use ridingthecode.Packet.{p_size}
use ridingthecode.Router.Relay.{
  Controller, Network, Input, datagram, new_controller, receive_data, received, transmit_data,
  round,
}
use ridingthecode.Router.Relay.Queue.{Holds, new_controller-Holds, size-Holds}
use ridingthecode.Router.Relay.Receive.{receive_data_lem, stored_state, stored_state-Holds}
use ridingthecode.Router.Relay.Transmit.{transmit_data_lem, fate}
use ridingthecode.Router.Relay.Rounds.{run, run_in_order, round-Safe, Safe, offers}
use ridingthecode.Router.Relay.Turns.{contents_of}

abbrev always : Bytes → Bool
always name = true

-- Every name resolves to itself, and every datagram is taken.
abbrev net : Network
net = record { resolve = λ name. some name; deliver = λ address raw. true }

abbrev start : Controller
start = new_controller always

abbrev page : Bytes
page = replicate p_size 7

length-page : length page ≡ p_size
length-page = length-replicate {A = ℕ} p_size 7

le-page : p_size ≤ length page
le-page = omega (arith, length-page)

receive_data_lem_example :
    (s' : Controller) × (receive_data start (datagram page ∷ []) ≡ received s' [])
    × Holds s' (take p_size page ∷ [])
    × (s'.noise ≡ start.noise)
receive_data_lem_example = receive_data_lem [] page [] (new_controller-Holds always) le-page

-- the emulator with one packet stored
abbrev one_queued : Controller
one_queued = stored_state start page

one_queued-Holds : Holds one_queued (page ∷ [])
one_queued-Holds = stored_state-Holds [] page (new_controller-Holds always) length-page room
  where
    room : start.buffer.size + p_size ≤ start.buffer.capacity
    room =
        omega
          (arith, size-Holds [] (new_controller-Holds always), (new_controller-Holds always).sized)

transmit_data_lem_example :
    Holds (transmit_data net 50 one_queued).after []
    × ((transmit_data net 50 one_queued).after.noise ≡ one_queued.noise)
    × (((transmit_data net 50 one_queued).status, (transmit_data net 50 one_queued).sent)
        ≡ fate net 50 one_queued.noise page)
transmit_data_lem_example = transmit_data_lem net 50 page [] one_queued-Holds

-- a turn in which a packet arrives, and one in which none does
abbrev arriving : Input
arriving = record {
  line = none;
  garbage = pos 0;
  writable = true;
  random = 50;
  arrivals = datagram page ∷ [];
}

abbrev quiet : Input
quiet = record arriving { arrivals = [] }

run_in_order_example :
    Sublistᴰ
      (contents_of (run always net (arriving ∷ quiet ∷ []) (new_controller always)))
      (offers (arriving ∷ quiet ∷ []))
run_in_order_example = run_in_order always net (arriving ∷ quiet ∷ []) (le-page, (tt, tt))

round-Safe_example : Safe (round always net arriving one_queued)
round-Safe_example = round-Safe always net arriving one_queued (page ∷ []) le-page one_queued-Holds
