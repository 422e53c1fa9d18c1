-- ===== src/Chat/Channel/Quit.antt =====
-- What a client that quits leaves behind: a descriptor of -1, which the next turn looks up.
use ridingthecode.Common.{
  ℕ, zero, suc, ◌+◌, ◌≤◌, ◌<◌, ◌≡◌, refl, ap, ◌∙◌, List, [], ◌∷◌, Bool, true, false, Option, arith,
  get_or, set, ◌==◌, if◌then◌else◌, Bool-cases, inl, inr, ==→eq,
}
use ridingthecode.Common.Int.{ℤ, negsuc}
use ridingthecode.Common.Text.{Bytes}
use ridingthecode.Common.Fault.{Fault, ok, fault, ◌>>=◌}
use ridingthecode.Chat.Stream.{Stream}
use ridingthecode.Chat.Channel.{
  Channel, Effect, broken, is_set, process_client_quit, client_packet, client_round, client_rounds,
  clients_turn, channel_turn,
}

-- Row `c` is in use and its descriptor is negative.
pub record Left (c : ℕ) (ch : Channel) : Type 0 where
  pub in_use : c < ch.current_clients
  pub gone : get_or ch.socket_list c (negsuc 0) ≡ negsuc 0

gone_after-set :
    (xs : List ℤ) (i c : ℕ)
    → get_or xs c (negsuc 0) ≡ negsuc 0
    → get_or (set xs i (negsuc 0)) c (negsuc 0) ≡ negsuc 0
gone_after-set [] i c h = h
gone_after-set (x ∷ xs) zero zero h = refl
gone_after-set (x ∷ xs) zero (suc c) h = h
gone_after-set (x ∷ xs) (suc i) zero h = h
gone_after-set (x ∷ xs) (suc i) (suc c) h = gone_after-set xs i c h

gone_at-set : (xs : List ℤ) (c : ℕ) → get_or (set xs c (negsuc 0)) c (negsuc 0) ≡ negsuc 0
gone_at-set [] c = refl
gone_at-set (x ∷ xs) zero = refl
gone_at-set (x ∷ xs) (suc c) = gone_at-set xs c

-- The row of a client that quits stays in use, with -1 as its descriptor.
pub process_client_quit-Left :
    (c : ℕ) (ch : Channel) → c < ch.current_clients → Left c (process_client_quit c ch).0
unfolding process_client_quit
process_client_quit-Left c ch h = record { in_use = h; gone = gone_at-set ch.socket_list c }

client_packet-Left :
    (c i : ℕ) (sock : ℤ) (packet : Option Bytes) (type : ℤ) (ch : Channel)
    → Left c ch
    → Left c (client_packet i sock packet type ch).0
unfolding client_packet process_client_quit
client_packet-Left c i sock packet type ch h = record {
  in_use = ground arith;
  gone = ground (arith, gone_after-set ch.socket_list i c);
}

module _ (malloc stack : ℕ → Bytes) (active : ℤ → Bool) where
  -- the round of a client ends in undefined behaviour, or keeps a row that was left
  abbrev KeepsLeft : ℕ → Fault (Channel × (ℤ → Stream) × List Effect) → Type 0
  KeepsLeft c fault = Unit {0}
  KeepsLeft c (ok (ch, streams, effects)) = Left c ch

  either-KeepsLeft :
      (c : ℕ) (m : Fault Bool) (ch : Channel) (streams : ℤ → Stream)
      (r : Channel × (ℤ → Stream) × List Effect)
      → Left c r.0
      → Left c ch
      → KeepsLeft c (m >>= λ ready. if ready then ok r else ok (ch, streams, []))
  either-KeepsLeft c fault ch streams r h k = tt
  either-KeepsLeft c (ok true) ch streams r h k = h
  either-KeepsLeft c (ok false) ch streams r h k = k

  client_round-KeepsLeft :
      (c i : ℕ) (ch : Channel) (streams : ℤ → Stream)
      → Left c ch
      → KeepsLeft c (client_round malloc stack active i ch streams)
  unfolding client_round
  client_round-KeepsLeft c i ch streams h =
      either-KeepsLeft c _ ch streams _ (client_packet-Left c i _ _ _ ch h) h

  client_round_fault :
      (c : ℕ) (ch : Channel) (streams : ℤ → Stream)
      → Left c ch
      → client_round malloc stack active c ch streams ≡ fault
  unfolding client_round is_set
  client_round_fault c ch streams h = rw h.gone refl

  then_fault :
      (c : ℕ) (m : Fault (Channel × (ℤ → Stream) × List Effect))
      (f : Channel × (ℤ → Stream) × List Effect → Fault (Channel × (ℤ → Stream) × List Effect))
      → KeepsLeft c m
      → ((r : Channel × (ℤ → Stream) × List Effect) → Left c r.0 → f r ≡ fault)
      → (m >>= f) ≡ fault
  then_fault c fault f h k = refl
  then_fault c (ok r) f h k = k r h

  fault_then :
      (m : Fault (Channel × (ℤ → Stream) × List Effect))
      (f : Channel × (ℤ → Stream) × List Effect → Fault (Channel × (ℤ → Stream) × List Effect))
      → m ≡ fault
      → (m >>= f) ≡ fault
  fault_then m f e = rw e refl

  client_rounds_fault :
      (k i c : ℕ) (ch : Channel) (streams : ℤ → Stream)
      → Left c ch
      → i ≤ c
      → c < i + k
      → client_rounds malloc stack active k i ch streams ≡ fault
  unfolding client_rounds
  client_rounds_fault zero i c ch streams h l m = absurd (omega arith)
  client_rounds_fault (suc k) i c ch streams h l m = elim (Bool-cases (i == c)) [
    | inl e ↦ fault_then _ _ (
        ap (λ n. client_round malloc stack active n ch streams) (==→eq i c e)
        ∙ client_round_fault c ch streams h)
    | inr e ↦
        then_fault c (client_round malloc stack active i ch streams) _
          (client_round-KeepsLeft c i ch streams h)
          λ r left.
            fault_then _ _ (client_rounds_fault k (i + 1) c r.0 r.1 left (ne_lt e) (omega arith))
  ]
    where
      ne_lt : (i == c) ≡ false → i + 1 ≤ c
      ne_lt e = ground arith

  clients_turn_broken :
      (c : ℕ) (effects : List Effect) (ch : Channel) (pipe : Stream) (streams : ℤ → Stream)
      → Left c ch
      → clients_turn malloc stack active effects ch pipe streams ≡ broken
  unfolding clients_turn
  clients_turn_broken c effects ch pipe streams h = rw (
    client_rounds_fault ch.current_clients 0 c ch streams h (omega arith) (omega (arith, h.in_use)),
    clients_turn,
  )

  -- Once a client has quit, each further turn that the pipe does not start looks up the descriptor -1
  -- in the set of `select`, whatever else happens in it.
  pub quit_breaks :
      (c : ℕ) (ch : Channel) (pipe : Stream) (streams : ℤ → Stream)
      → c < ch.current_clients
      → channel_turn malloc stack active false (process_client_quit c ch).0 pipe streams ≡ broken
  unfolding channel_turn
  quit_breaks c ch pipe streams h =
      clients_turn_broken c [] (process_client_quit c ch).0 pipe streams
        (process_client_quit-Left c ch h)
