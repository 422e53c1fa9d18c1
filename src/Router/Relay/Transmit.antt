-- ===== src/Router/Relay/Transmit.antt =====
-- What `transmit_data` does with the oldest packet of the buffer.
use ridingthecode.Common.{
  ℕ, ◌≡◌, ap, ◌∙◌, List, [], ◌∷◌, arith, true, none, some, leb, if◌then◌else◌,
}
use ridingthecode.Common.Int.{ℤ, pos, negsuc}
use ridingthecode.Common.Text.{Bytes}
use ridingthecode.Packet.{p_size, buf_len, dest_text}
use ridingthecode.Router.Ring.{CircularBuffer, read}
use ridingthecode.Router.Ring.Bounds.{IsValid, read-IsValid, capacity-read}
use ridingthecode.Router.Ring.Contents.{contents, read_whole}
use ridingthecode.Router.Noise.{NoiseController, packet_drop_check}
use ridingthecode.Router.Relay.{Controller, Network, Sent, transmit_data, forward, notify, blank}
use ridingthecode.Router.Relay.Queue.{Holds, AllWhole, joined, size-Holds}
use ridingthecode.Router.Relay.Receive.{length-blank}

-- What happens to a packet at the head of the queue: the status returned, and what is sent.
unfoldable pub fate : Network → ℕ → NoiseController → Bytes → ℤ × List Sent
fate net random noise p =
    if packet_drop_check noise random
    then elim (net.resolve (dest_text p)) [
      | none ↦ (negsuc 0, [])
      | some address ↦
          if net.deliver address p
          then (pos 0, record { address = address; content = p; delay = noise.packet_delay } ∷ [])
          else (negsuc 1, [])
    ]
    else (pos 2, [])

-- With no packet in the buffer nothing is sent and nothing changes.
pub transmit_data_idle :
    (net : Network) (random : ℕ) {s : Controller}
    → Holds s []
    → transmit_data net random s ≡ record { status = pos 0; sent = []; after = s }
unfolding transmit_data
transmit_data_idle net random {s} h = ground (arith, size-Holds [] h)

buffer-Holds :
    (s : Controller) (r : CircularBuffer) (ps : List Bytes)
    → s.buffer ≡ r
    → IsValid r
    → AllWhole ps
    → r.capacity ≡ buf_len
    → contents r ≡ joined ps
    → Holds s ps
buffer-Holds s r ps e v w c q = record { valid = rw e v; whole = w; sized = rw e c; queue = rw e q }

module _ (net : Network) (random : ℕ) (s : Controller) where
  -- the three parts of what `transmit_data` leaves, for the bytes that it reads
  transmitted_parts :
      leb p_size s.buffer.size ≡ true
      → ((transmit_data net random s).after.buffer ≡ (read s.buffer blank p_size).2)
        × ((transmit_data net random s).after.noise ≡ s.noise)
        × (((transmit_data net random s).status, (transmit_data net random s).sent)
            ≡ fate net random s.noise (read s.buffer blank p_size).1)
  unfolding transmit_data forward notify fate
  transmitted_parts h = (ground arith, ground arith, ground arith)

module _ (net : Network) (random : ℕ) {s : Controller} (p : Bytes) (ps : List Bytes) where
  head_read :
      Holds s (p ∷ ps)
      → ((read s.buffer blank p_size).1 ≡ p) × (contents (read s.buffer blank p_size).2 ≡ joined ps)
  head_read h =
      read_whole s.buffer blank p (joined ps) p_size h.valid length-blank h.whole.0 h.queue

  has_packet : Holds s (p ∷ ps) → leb p_size s.buffer.size ≡ true
  has_packet h = ground (arith, size-Holds (p ∷ ps) h)

  -- With whole packets queued and `p` the oldest of them, `transmit_data` takes `p` and no other
  -- from the buffer on every branch and leaves the settings; the packet is dropped by the loss
  -- check, is not resolved, is not delivered, or is sent unchanged after the set delay, each with
  -- its status.
  pub transmit_data_lem :
      Holds s (p ∷ ps)
      → Holds (transmit_data net random s).after ps
        × ((transmit_data net random s).after.noise ≡ s.noise)
        × (((transmit_data net random s).status, (transmit_data net random s).sent)
            ≡ fate net random s.noise p)
  transmit_data_lem h = (
    buffer-Holds _ (read s.buffer blank p_size).2 ps parts.0
        (read-IsValid s.buffer blank p_size h.valid) h.whole.1
        (capacity-read s.buffer blank p_size ∙ h.sized) (head_read h).1,
    parts.1,
    parts.2 ∙ ap (fate net random s.noise) (head_read h).0,
  )
    where
      parts :
          ((transmit_data net random s).after.buffer ≡ (read s.buffer blank p_size).2)
          × ((transmit_data net random s).after.noise ≡ s.noise)
          × (((transmit_data net random s).status, (transmit_data net random s).sent)
              ≡ fate net random s.noise (read s.buffer blank p_size).1)
      parts = transmitted_parts net random s (has_packet h)
