-- ===== src/Client/Loop.antt =====
-- One turn of the loop of `execute` in 7005_NVirt/Client/src/Controller.cpp: a command, a packet sent,
-- a packet received, and the timer, in this order. What the turn meets is its input.
pub mod Turns
use ridingthecode.Common.{List, [], ◌∷◌, ◌++◌, Bool, Option, none, some, if◌then◌else◌, ℕ}
use ridingthecode.Common.Int.{ℤ, pos}
use ridingthecode.Common.Text.{Bytes}
use ridingthecode.Common.Fault.{Fault, ok, fault}
use ridingthecode.Client.Node.{
  Node, Network, Sent, Outcome, running, exited, aborted, undefined, check_command, transmit_data,
  check_timer,
}
use ridingthecode.Client.Socket as Socket
use ridingthecode.Client.Socket.{Arrival, Received, received, blocked, receive_data}

-- `host` is what `grab_ip` returns, `clock` and `later` what `clock()` does after sending and at the
-- end, `garbage` what the uninitialised packet holds.
pub record Input : Type 0 where
  pub line : Option Bytes
  pub host : Bytes
  pub writable : Bool
  pub clock : ℤ
  pub arrivals : List Arrival
  pub garbage : Bytes
  pub later : ℤ

-- How the turn ends: `stuck` waits in `recvfrom`, `broken` is undefined behaviour.
pub data Turn : Type 0 where
  next : Node → List Sent → List Arrival → Turn
  exit : ℕ → Turn
  abort stuck broken : Turn

timer_turn : List Sent → List Arrival → Fault Node → Turn
timer_turn sent rest (ok s) = next s sent rest
timer_turn sent rest fault = broken

received_turn : Input → List Sent → Received → Turn
unfolding timer_turn
received_turn i sent (received s replies rest) =
    timer_turn (sent ++ replies) rest (check_timer i.later s)
received_turn i sent blocked = stuck
received_turn i sent Socket.undefined = broken

-- `FD_ISSET(ctrl_socket, &rcvset_t)`: a datagram or an error is waiting.
receive_turn : Network → Input → List Sent → Node → List Arrival → Turn
unfolding timer_turn received_turn
receive_turn net i sent s [] = timer_turn sent [] (check_timer i.later s)
receive_turn net i sent s (a ∷ rest) =
    received_turn i sent (receive_data net i.garbage s (a ∷ rest))

sent_turn : Network → Input → Fault (ℤ × Node × List Sent) → Turn
unfolding receive_turn
sent_turn net i (ok (status, s, sent)) = receive_turn net i sent s i.arrivals
sent_turn net i fault = broken

socket_turn : Network → Input → Node → Turn
unfolding sent_turn
socket_turn net i s =
    sent_turn net i (if i.writable then transmit_data net i.clock s else ok (pos 0, s, []))

command_turn : Network → Input → Outcome → Turn
unfolding socket_turn
command_turn net i (running s) = socket_turn net i s
command_turn net i (exited n) = exit n
command_turn net i aborted = abort
command_turn net i undefined = broken

unfoldable pub turn : Network → Input → Node → Turn
unfolding socket_turn command_turn
turn net i s = elim i.line [
  | none ↦ socket_turn net i s
  | some line ↦ command_turn net i (check_command i.host s line)
]
