-- ===== src/Router/Relay/Receive.antt =====
-- What `recieve_data` makes of the datagrams that arrive.
use ridingthecode.Common.{
  ℕ, zero, suc, ◌+◌, ◌-◌, ◌≤◌, ◌<◌, ◌≡◌, refl, ap, ◌∙◌, List, [], ◌∷◌, ◌++◌, some, none, true,
  false, arith, length, take, length-take, length-replicate, copy_to, copy_to_nil, sym,
  copy_to_front, drop_all, append-nil, take_all, Bool-cases, inl, inr, ltb, if◌then◌else◌, ltb→lt,
  lt→ltb, ◌*◌,
}
use ridingthecode.Common.Int.{pos, ◌+ℤ◌, ◌-ℤ◌}
use ridingthecode.Common.Text.{Bytes}
use ridingthecode.Packet.{p_size, buf_len}
use ridingthecode.Router.Ring.{write, sub_size}
use ridingthecode.Router.Ring.Bounds.{write-IsValid, capacity-write}
use ridingthecode.Router.Ring.Contents.{write_whole}
use ridingthecode.Router.Relay.{
  Controller, Arrival, datagram, whole, overrun, read_loop, blank, stored, receive_data, received,
  corrupted, notify, finish_receive,
}
use ridingthecode.Router.Relay.Queue.{Holds, AllWhole-append, joined-append, size-Holds}

pub length-blank : length blank ≡ p_size
unfolding blank
length-blank = length-replicate p_size (zero + zero)

stored_front : (packet bs : Bytes) → stored packet (pos 0) bs ≡ some (copy_to packet 0 bs)
unfolding stored
stored_front packet [] = ap some (sym (copy_to_nil packet 0))
stored_front packet (b ∷ bs) = refl

read_loop_fits :
    (m k : ℕ) (d : Bytes) (rest : List Arrival) (packet packet' : Bytes)
    → stored packet (pos 0) (take m d) ≡ some packet'
    → length (take m d) ≡ k
    → p_size ≤ k
    → read_loop (datagram d ∷ rest) (pos 0) (pos m) packet ≡ whole packet' (pos k) rest
unfolding read_loop ◌+ℤ◌
read_loop_fits m k d rest packet packet' e l h = ground arith

filled :
    (n : ℕ) (d mem : Bytes)
    → length mem ≡ n
    → n ≤ length d
    → stored mem (pos 0) (take n d) ≡ some (take n d)
filled n d mem h k =
    stored_front mem (take n d)
    ∙ ap some (
        copy_to_front mem (take n d) 0 (omega (arith, length-take n d))
        ∙ ap (λ l. take n d ++ l)
            (drop_all (length (take n d)) mem (omega (arith, length-take n d)))
        ∙ append-nil (take n d))

length-take-of-le : (n : ℕ) (d : Bytes) → n ≤ length d → length (take n d) ≡ n
length-take-of-le n d h = omega (arith, length-take n d)

-- A datagram of at least a packet's size fills the packet.
read_loop-whole :
    (d : Bytes) (rest : List Arrival)
    → p_size ≤ length d
    → read_loop (datagram d ∷ rest) (pos 0) (pos p_size) blank
      ≡ whole (take p_size d) (pos p_size) rest
read_loop-whole d rest h =
    read_loop_fits p_size p_size d rest blank (take p_size d) (filled p_size d blank length-blank h)
      (length-take-of-le p_size d h) (omega arith)

read_loop_short :
    (m : ℕ) (d : Bytes) (rest : List Arrival) (packet packet' : Bytes)
    → stored packet (pos 0) d ≡ some packet'
    → length d < p_size
    → length d ≤ m
    → read_loop (datagram d ∷ rest) (pos 0) (pos m) packet
      ≡ read_loop rest (pos (length d)) (pos (m - length d)) packet'
unfolding read_loop ◌+ℤ◌ ◌-ℤ◌
read_loop_short m d rest packet packet' e l h = ground (arith, take_all m d h)

stored_behind :
    (packet : Bytes) (k b : ℕ) (bs : Bytes) → stored packet (pos (suc k)) (b ∷ bs) ≡ none
unfolding stored
stored_behind packet k b bs = ground arith

read_loop_behind :
    (m k b : ℕ) (bs : Bytes) (rest : List Arrival) (packet : Bytes)
    → 0 < m
    → 0 < k
    → read_loop (datagram (b ∷ bs) ∷ rest) (pos k) (pos m) packet ≡ overrun
unfolding read_loop
read_loop_behind zero k b bs rest packet h p = absurd (omega arith)
read_loop_behind (suc m) zero b bs rest packet h p = absurd (omega arith)
read_loop_behind (suc m) (suc k) b bs rest packet h p =
    ground (arith, stored_behind packet k b (take m bs))

-- A datagram shorter than a packet, and any datagram with a byte behind it.
read_loop-overrun :
    (d e : Bytes) (b : ℕ) (rest : List Arrival)
    → 0 < length d
    → length d < p_size
    → read_loop (datagram d ∷ datagram (b ∷ e) ∷ rest) (pos 0) (pos p_size) blank ≡ overrun
read_loop-overrun d e b rest h k =
    read_loop_short p_size d (datagram (b ∷ e) ∷ rest) blank (copy_to blank 0 d)
      (stored_front blank d) k (omega arith)
    ∙ read_loop_behind (p_size - length d) (length d) b e rest (copy_to blank 0 d) (omega arith) h

-- the emulator after it has stored a packet
pub stored_state : Controller → Bytes → Controller
stored_state s p = record (notify s 1 p) { buffer = (write s.buffer p p_size).1 }

pub stored_state-Holds :
    {s : Controller} (ps : List Bytes) (p : Bytes)
    → Holds s ps
    → length p ≡ p_size
    → s.buffer.size + p_size ≤ s.buffer.capacity
    → Holds (stored_state s p) (ps ++ p ∷ [])
unfolding stored_state
stored_state-Holds {s} ps p h k room = record {
  valid = write-IsValid s.buffer p p_size h.valid;
  whole = AllWhole-append ps p h.whole k;
  sized = capacity-write s.buffer p p_size ∙ h.sized;
  queue =
      write_whole s.buffer p p_size h.valid k room
      ∙ ap (λ l. l ++ p) h.queue
      ∙ sym (joined-append ps p);
}

receive_open :
    (s : Controller) (as' : List Arrival)
    → ltb p_size (sub_size s.buffer.capacity s.buffer.size) ≡ true
    → receive_data s as' ≡ finish_receive s (read_loop as' (pos 0) (pos p_size) blank)
unfolding receive_data
receive_open s as' e = rw e

receive_closed :
    (s : Controller) (as' : List Arrival)
    → ltb p_size (sub_size s.buffer.capacity s.buffer.size) ≡ false
    → receive_data s as' ≡ received s as'
unfolding receive_data
receive_closed s as' e = rw e

-- the room test, for a buffer that holds `n` packets
room_test :
    (n size cap : ℕ)
    → cap ≡ buf_len
    → size ≡ n * p_size
    → size ≤ cap
    → ltb p_size (sub_size cap size) ≡ ltb n 97
room_test n size cap e f h = ground arith

finish_whole :
    (s : Controller) (p : Bytes) (rest : List Arrival)
    → finish_receive s (whole p (pos p_size) rest) ≡ received (stored_state s p) rest
unfolding finish_receive stored_state notify
finish_whole s p rest = refl

noise-stored_state : (s : Controller) (p : Bytes) → (stored_state s p).noise ≡ s.noise
unfolding stored_state notify
noise-stored_state s p = refl

-- With whole packets queued, fewer than 97, a datagram of at least a packet's size is stored behind
-- the others, cut to that size; with 97 or more queued nothing is read and the queue stays. The
-- settings stay.
pub receive_data_lem :
    {s : Controller} (ps : List Bytes) (d : Bytes) (rest : List Arrival)
    → Holds s ps
    → p_size ≤ length d
    → (s' : Controller) × (receive_data s (datagram d ∷ rest)
        ≡ received s' (if ltb (length ps) 97 then rest else datagram d ∷ rest))
      × Holds s' (if ltb (length ps) 97 then ps ++ take p_size d ∷ [] else ps)
      × (s'.noise ≡ s.noise)
receive_data_lem {s} ps d rest h k = elim (Bool-cases (ltb (length ps) 97)) [
  | inl few ↦ (
    stored_state s (take p_size d),
    rw few (
        receive_open s (datagram d ∷ rest) (room ∙ few)
        ∙ ap (finish_receive s) (read_loop-whole d rest k)
        ∙ finish_whole s (take p_size d) rest),
    rw few (
        stored_state-Holds ps (take p_size d) h (length-take-of-le p_size d k)
          (fits (ltb→lt (length ps) 97 few))),
    noise-stored_state s (take p_size d),
  )
  | inr full ↦ (s, rw full (receive_closed s (datagram d ∷ rest) (room ∙ full)), rw full h, refl)
]
  where
    room : ltb p_size (sub_size s.buffer.capacity s.buffer.size) ≡ ltb (length ps) 97
    room =
        room_test (length ps) s.buffer.size s.buffer.capacity h.sized (size-Holds ps h)
          h.valid.size_in

    fits : length ps < 97 → s.buffer.size + p_size ≤ s.buffer.capacity
    fits few = omega (arith, size-Holds ps h, h.sized)

-- With whole packets queued, fewer than 97, a datagram that is not empty but shorter than a packet,
-- followed by another one that is not empty, makes `recieve_data` store bytes outside the packet.
pub short_datagram_corrupts :
    {s : Controller} (ps : List Bytes) (d e : Bytes) (b : ℕ) (rest : List Arrival)
    → Holds s ps
    → length ps < 97
    → 0 < length d
    → length d < p_size
    → receive_data s (datagram d ∷ datagram (b ∷ e) ∷ rest) ≡ corrupted
unfolding finish_receive
short_datagram_corrupts {s} ps d e b rest h k l m =
    receive_open s (datagram d ∷ datagram (b ∷ e) ∷ rest) (
      room_test (length ps) s.buffer.size s.buffer.capacity h.sized (size-Holds ps h)
        h.valid.size_in
      ∙ lt→ltb (length ps) 97 k)
    ∙ ap (finish_receive s) (read_loop-overrun d e b rest l m)
