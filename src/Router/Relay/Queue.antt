-- ===== src/Router/Relay/Queue.antt =====
-- The emulator's buffer as a queue of whole packets.
use ridingthecode.Common.{
  ◌*◌, ◌≡◌, sym, ap, ◌∙◌, List, [], ◌∷◌, ◌++◌, arith, length, length-append, append_assoc,
  append-nil, Bool,
}
use ridingthecode.Common.Text.{Bytes}
use ridingthecode.Packet.{p_size, buf_len}
use ridingthecode.Router.Ring.{CircularBuffer, new_buffer}
use ridingthecode.Router.Ring.Bounds.{IsValid, new_buffer-IsValid, capacity-new_buffer}
use ridingthecode.Router.Ring.Contents.{contents, length-contents}
use ridingthecode.Router.Relay.{Controller, new_controller}

-- the packets one behind the other
abbrev pub joined : List Bytes → Bytes
joined [] = []
joined (p ∷ ps) = p ++ joined ps

abbrev pub AllWhole : List Bytes → Type 0
AllWhole [] = Unit {0}
AllWhole (p ∷ ps) = (length p ≡ p_size) × AllWhole ps

-- The buffer is valid, of the source's size, and holds exactly these packets, oldest first.
pub record Holds (s : Controller) (ps : List Bytes) : Type 0 where
  pub valid : IsValid s.buffer
  pub whole : AllWhole ps
  pub sized : s.buffer.capacity ≡ buf_len
  pub queue : contents s.buffer ≡ joined ps

pub AllWhole-append :
    (ps : List Bytes) (p : Bytes) → AllWhole ps → length p ≡ p_size → AllWhole (ps ++ p ∷ [])
AllWhole-append [] p h k = (k, tt)
AllWhole-append (q ∷ ps) p h k = (h.0, AllWhole-append ps p h.1 k)

pub joined-append : (ps : List Bytes) (p : Bytes) → joined (ps ++ p ∷ []) ≡ joined ps ++ p
joined-append [] p = append-nil p
joined-append (q ∷ ps) p =
    ap (λ l. q ++ l) (joined-append ps p) ∙ sym (append_assoc q (joined ps) p)

pub length-joined : (ps : List Bytes) → AllWhole ps → length (joined ps) ≡ length ps * p_size
length-joined [] h = omega arith
length-joined (p ∷ ps) h = omega (arith, length-append p (joined ps), length-joined ps h.1, h.0)

-- The bytes in use are a whole number of packets.
pub size-Holds :
    {s : Controller} (ps : List Bytes) → Holds s ps → s.buffer.size ≡ length ps * p_size
size-Holds {s} ps h = sym (length-contents s.buffer) ∙ ap length h.queue ∙ length-joined ps h.whole

contents_empty : (r : CircularBuffer) → r.size ≡ 0 → contents r ≡ []
contents_empty r e = ground (arith, length-contents r)

-- A new emulator holds no packet.
pub new_controller-Holds : (can_open : Bytes → Bool) → Holds (new_controller can_open) []
unfolding new_controller
new_controller-Holds can_open = record {
  valid = (new_buffer-IsValid buf_len (omega arith) (omega arith)).0;
  whole = tt;
  sized = capacity-new_buffer buf_len;
  queue =
      contents_empty (new_buffer buf_len)
        (new_buffer-IsValid buf_len (omega arith) (omega arith)).1;
}
