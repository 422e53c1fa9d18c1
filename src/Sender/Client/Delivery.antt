-- ===== src/Sender/Client/Delivery.antt =====
-- What the client has sent when a transfer is over.
use ridingthecode.Common.{
  ℕ, zero, suc, ◌+◌, ◌≤◌, ◌<◌, ◌≡◌, refl, sym, ap, ap₂, subst, ◌∙◌, List, [], ◌∷◌, ◌++◌, Bool, true,
  false, arith, length, length-append, take, ltb, ◌&&◌, ◌^◌, ◌*◌, map, if◌then◌else◌, ◌==◌, copy_to,
  length-copy_to, take_all, append_assoc, replicate,
}
use ridingthecode.Common.Text.{Bytes}
use ridingthecode.Common.Fault.{Fault, ok, fault}
use ridingthecode.Chat.Stream.Receive.{copy_to_all}
use ridingthecode.Sender.Client.{
  Packets, receive_acknowledge, Round, delivered, send_until, send_each, and_then, file_packets,
  read_file, payloads, max_packets,
}

-- how many rounds bring an acknowledgement
abbrev pub acks : List Round → ℕ
acks [] = 0
acks ((works, answer) ∷ rounds) = (if receive_acknowledge answer then 1 else 0) + acks rounds

-- no send fails
abbrev pub AllSent : List Round → Type 0
AllSent [] = Unit {0}
AllSent ((works, answer) ∷ rounds) = (works ≡ true) × AllSent rounds

-- How the buffers go out in some rounds, with what is sent and the rounds that are left: a buffer is sent once
-- in a round, again in the next one where the answer is no acknowledgement, and where it is one the next
-- buffer has its turn.
pub data SentUntilAcked : List Bytes → List Round → List Bytes → List Round → Type 0 where
  done : {rest : List Round} → SentUntilAcked [] rest [] rest
  again :
      {b a : Bytes} {bs sends : List Bytes} {works : Bool} {rounds rest : List Round}
      → receive_acknowledge a ≡ false
      → SentUntilAcked (b ∷ bs) rounds sends rest
      → SentUntilAcked (b ∷ bs) ((works, a) ∷ rounds) (b ∷ sends) rest
  next :
      {b a : Bytes} {bs sends : List Bytes} {works : Bool} {rounds rest : List Round}
      → receive_acknowledge a ≡ true
      → SentUntilAcked bs rounds sends rest
      → SentUntilAcked (b ∷ bs) ((works, a) ∷ rounds) (b ∷ sends) rest

-- what one buffer takes
record Until (b : Bytes) (rounds : List Round) : Type 0 where
  sends : List Bytes
  lost : ℕ
  rest : List Round
  result : send_until false b rounds ≡ delivered sends lost rest
  counted : length sends ≡ lost + 1
  left : acks rounds ≡ acks rest + 1
  all_sent : AllSent rest
  before :
      (bs more : List Bytes) (last : List Round)
      → SentUntilAcked bs rest more last
      → SentUntilAcked (b ∷ bs) rounds (sends ++ more) last

Until-acks : (b : Bytes) (rounds : List Round) → AllSent rounds → 0 < acks rounds → Until b rounds
unfolding send_until
Until-acks b [] w h = absurd (omega arith)
Until-acks b ((works, a) ∷ rounds) w h = go (receive_acknowledge a) refl (Until-acks b rounds w.1)
  where
    rest_acks : receive_acknowledge a ≡ false → 0 < acks rounds
    rest_acks e = omega (arith, subst (λ t. 0 < (if t then 1 else 0) + acks rounds) e h)

    sent_again : receive_acknowledge a ≡ false → Until b rounds → Until b ((works, a) ∷ rounds)
    sent_again e u = record {
      sends = b ∷ u.sends;
      lost = u.lost + 1;
      rest = u.rest;
      result = rw (w.0, e, u.result) refl;
      counted = omega (arith, u.counted);
      left = rw e (omega (arith, u.left));
      all_sent = u.all_sent;
      before = λ bs more last r. again e (u.before bs more last r);
    }

    go :
        (t : Bool)
        → receive_acknowledge a ≡ t
        → (0 < acks rounds → Until b rounds)
        → Until b ((works, a) ∷ rounds)
    go true e later = record {
      sends = b ∷ [];
      lost = 0;
      rest = rounds;
      result = rw (w.0, e) refl;
      counted = refl;
      left = rw e (omega arith);
      all_sent = w.1;
      before = λ bs more last r. next e r;
    }
    go false e later = sent_again e (later (rest_acks e))

chained :
    (b : Bytes) (bs : List Bytes) (rounds : List Round) (u : Until b rounds) (more : List Bytes)
    (lost : ℕ) (rest : List Round)
    → send_each bs u.rest ≡ delivered more lost rest
    → send_each (b ∷ bs) rounds ≡ delivered (u.sends ++ more) (u.lost + lost) rest
unfolding send_each and_then
chained b bs rounds u more lost rest e = rw (u.result, e) refl

-- Where no send fails and as many rounds bring an acknowledgement as there are buffers, all are sent in
-- order, one in each round: each again as long as the answer of the round is no acknowledgement, and the
-- next one once it is. What is counted as lost is what was sent again, and the rounds left hold as many
-- acknowledgements fewer as there are buffers.
pub send_each_lem :
    (bs : List Bytes) (rounds : List Round)
    → AllSent rounds
    → length bs ≤ acks rounds
    → (sends : List Bytes) × (lost : ℕ) × (rest : List Round) × (send_each bs rounds
        ≡ delivered sends lost rest)
      × SentUntilAcked bs rounds sends rest
      × (length sends ≡ length bs + lost)
      × (acks rounds ≡ acks rest + length bs)
unfolding send_each
send_each_lem [] rounds w h = ([], 0, rounds, refl, done, refl, omega arith)
send_each_lem (b ∷ bs) rounds w h =
    let u = Until-acks b rounds w (omega arith) in
    let r = send_each_lem bs u.rest u.all_sent (omega (arith, u.left)) in
    (
      u.sends ++ r.0,
      u.lost + r.1,
      r.2,
      chained b bs rounds u r.0 r.1 r.2 r.3,
      u.before bs r.0 r.2 r.4,
      omega (arith, length-append u.sends r.0, u.counted, r.5),
      omega (arith, u.left, r.6),
    )

-- parts of this size
abbrev pub AllFull : ℕ → List Bytes → Type 0
AllFull n [] = Unit {0}
AllFull n (x ∷ xs) = (length x ≡ n) × AllFull n xs

some_bytes : (n k : ℕ) → 0 < n → k ≡ n → (k == 0) ≡ false
some_bytes n k h e = ground arith

-- the tests of a piece that the array holds
stored :
    (k n : ℕ) (p : Packets)
    → (k == 0) ≡ false
    → k ≡ n
    → length p.lens < max_packets
    → p.total + n < 2 ^ 31
    → (finished rest : Fault Packets)
    → (if k == 0
        then finished
        else if ltb (length p.lens) max_packets && ltb (p.total + k) (2 ^ 31)
        then rest
        else fault)
      ≡ rest
stored k n p e f c t finished rest = ground arith

-- the buffer and the lengths after the file is read
read_file_full :
    (n : ℕ) (parts : List Bytes) (last : Bytes) (p : Packets)
    → 0 < n
    → AllFull n parts
    → length last ≡ n
    → length p.buff ≡ n
    → length p.lens + suc (length parts) ≤ max_packets
    → p.total + n * suc (length parts) < 2 ^ 31
    → (q : Packets) × (read_file (parts ++ last ∷ []) p ≡ ok q)
      × (q.buff ≡ last)
      × (q.lens ≡ p.lens ++ replicate (suc (length parts)) n)
unfolding read_file
read_file_full n [] last p h k l m c t = (
  _,
  stored (length last) n p (some_bytes n (length last) h l) l (omega (arith, c)) (omega (arith, t))
      _ _,
  copy_to_all p.buff last (l ∙ sym m),
  ap (λ x. p.lens ++ x ∷ []) l,
)
read_file_full n (part ∷ parts) last p h k l m c t =
    let p' : Packets = record {
      buff = copy_to p.buff 0 part;
      lens = p.lens ++ length part ∷ [];
      total = p.total + length part;
    } in
    let r =
      read_file_full n parts last p' h k.1 l (length-copy_to p.buff 0 part ∙ m)
        (omega (arith, c, length-append p.lens (length part ∷ []))) (omega (arith, t, k.0)) in
    (
      r.0,
      stored (length part) n p (some_bytes n (length part) h k.0) k.0 (omega (arith, c))
            (omega (arith, t)) _ _
          ∙ r.1,
      r.2,
      r.3
          ∙ append_assoc p.lens (length part ∷ []) (replicate (suc (length parts)) n)
          ∙ ap (λ x. p.lens ++ x ∷ replicate (suc (length parts)) n) k.0,
    )

map-replicate :
    (n k : ℕ) (last : Bytes)
    → length last ≡ n
    → map (λ m. take m last) (replicate k n) ≡ replicate k last
map-replicate n zero last h = refl
map-replicate n (suc k) last h =
    ap₂ ◌∷◌ (take_all n last (omega (arith, h))) (map-replicate n k last h)

-- A file that is read in packets of one size, which are as many as the array holds and have a size that an
-- `int` holds, is sent as its last packet, as often as it has packets.
pub payloads-file_packets :
    (n : ℕ) (buff : Bytes) (parts : List Bytes) (last : Bytes)
    → 0 < n
    → length buff ≡ n
    → AllFull n parts
    → length last ≡ n
    → suc (length parts) ≤ max_packets
    → n * suc (length parts) < 2 ^ 31
    → (q : Packets) × (file_packets buff (parts ++ last ∷ []) ≡ ok q)
      × (payloads q ≡ replicate (suc (length parts)) last)
unfolding file_packets
payloads-file_packets n buff parts last h m k l c t =
    let r =
      read_file_full n parts last (record { buff = buff; lens = []; total = 0 }) h k l m
        (omega (arith, c)) (omega (arith, t)) in
    (
      r.0,
      r.1,
      ap₂ (λ b lens. map (λ x. take x b) lens) r.2 r.3
          ∙ map-replicate n (suc (length parts)) last l,
    )
