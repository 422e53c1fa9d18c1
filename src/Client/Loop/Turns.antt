-- ===== src/Client/Loop/Turns.antt =====
-- What a turn of the client's loop does for the transfer in front.
use ridingthecode.Common.{
  ℕ, ◌+◌, ◌^◌, ◌≤◌, ◌<◌, ◌≡◌, refl, ap, ◌∙◌, List, [], ◌∷◌, true, false, none, arith, length,
  take_all,
}
use ridingthecode.Common.Int.{ℤ, pos}
use ridingthecode.Common.Text.{Bytes}
use ridingthecode.Common.Fault.{ok}
use ridingthecode.Packet.{p_size, ip_len, to_bytes}
use ridingthecode.Packet.Layout.{length-to_bytes}
use ridingthecode.Client.Node.{Node, Network, Sent, transmit_data, check_packet, check_timer}
use ridingthecode.Client.Node.Delivery.{Progress, acked_by, acked_by-IsPacket}
use ridingthecode.Client.Node.Exchange.{exchange_steps}
use ridingthecode.Client.Socket.{Arrival, datagram, receive_data, checked}
use ridingthecode.Client.Socket.Arrivals.{receive_data-check_packet}
use ridingthecode.Client.Loop.{
  Input, next, turn, socket_turn, sent_turn, receive_turn, received_turn, timer_turn,
}

check_timer_off : (now : ℤ) (s : Node) → s.timer_enabled ≡ false → check_timer now s ≡ ok s
unfolding check_timer
check_timer_off now s h = ground arith

-- a packet that arrives is answered
receive_packet :
    (net : Network) (garbage raw : Bytes) (s : Node) (rest : List Arrival)
    → length garbage ≡ p_size
    → length raw ≡ p_size
    → receive_data net garbage s (datagram raw ∷ rest) ≡ checked rest (check_packet net s raw)
receive_packet net garbage raw s rest h k =
    receive_data-check_packet net garbage s (datagram raw) rest h (omega arith)
    ∙ ap (λ p. checked rest (check_packet net s p)) (take_all p_size raw (omega arith))

receive_turn_ack :
    (net : Network) (i : Input) (raw : Bytes) (s s' : Node) (m : Sent) (rest : List Arrival)
    → length i.garbage ≡ p_size
    → length raw ≡ p_size
    → check_packet net s raw ≡ ok (s', [])
    → s'.timer_enabled ≡ false
    → receive_turn net i (m ∷ []) s (datagram raw ∷ rest) ≡ next s' (m ∷ []) rest
unfolding receive_turn received_turn timer_turn
receive_turn_ack net i raw s s' m rest h k e f =
    rw (receive_packet net i.garbage raw s rest h k, e, check_timer_off i.later s' f) refl

socket_turn_sent :
    (net : Network) (i : Input) (s s' : Node) (m : Sent)
    → i.writable ≡ true
    → transmit_data net i.clock s ≡ ok (pos 0, s', m ∷ [])
    → socket_turn net i s ≡ receive_turn net i (m ∷ []) s' i.arrivals
unfolding socket_turn sent_turn
socket_turn_sent net i s s' m w e = rw (w, e) refl

turn_quiet :
    (net : Network) (i : Input) (s : Node) → i.line ≡ none → turn net i s ≡ socket_turn net i s
unfolding turn
turn_quiet net i s e = rw e refl

-- Over a network that finds the emulator and takes every datagram, from `a` packets sent and
-- acknowledged with `a < n`, a turn in which no line is typed, the socket is writable and the ack for
-- the packet that is due arrives sends that packet alone, takes in the ack, and ends with `a + 1`; an
-- `int` holds the size of the packets and one more, and `n` plus the window, which is positive; the
-- source address fits its field.
pub turn_advances :
    (net : Network) (i : Input) (src : Bytes) (s : Node) (n w a : ℕ) (rest : List Arrival)
    → Progress net s n w a
    → length src ≤ ip_len
    → 0 < w
    → n + w < 2 ^ 31
    → a < n
    → i.line ≡ none
    → i.writable ≡ true
    → i.arrivals ≡ datagram (to_bytes (acked_by src a)) ∷ rest
    → length i.garbage ≡ p_size
    → (s' : Node) × (m : Sent) × (turn net i s ≡ next s' (m ∷ []) rest)
      × Progress net s' n w (a + 1)
turn_advances net i src s n w a rest p h w0 w1 l quiet ready arrived g =
    let (s₁, m, s₂, sent, taken, off, q) = exchange_steps net i.clock src s n w a p h w0 w1 l in
    (
      s₂,
      m,
      turn_quiet net i s quiet
          ∙ socket_turn_sent net i s s₁ m ready sent
          ∙ ap (receive_turn net i (m ∷ []) s₁) arrived
          ∙ receive_turn_ack net i (to_bytes (acked_by src a)) s₁ s₂ m rest g
              (length-to_bytes (acked_by-IsPacket src a (omega arith))) taken off,
      q,
    )
