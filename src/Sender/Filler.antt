-- ===== src/Sender/Filler.antt =====
-- A transfer of filler over TCP, from the client's packets to the server's last event.
use ridingthecode.Common.{
  ℕ, ◌≤◌, ap₂, ◌&&◌, le→leb, lt→ltb, if_true, set, ◌-◌, sym, length-set, zero, suc, length-take,
  ◌+◌, ◌*◌, ◌^◌, ◌<◌, ◌≡◌, ◌≢◌, refl, ap, ◌∙◌, List, [], ◌∷◌, ◌++◌, Bool, true, false, some, arith,
  length, map, take, replicate, get_or, copy_to, copy_to_front, length-replicate, drop_all,
  append-nil, take_all, if◌then◌else◌,
}
use ridingthecode.Common.Int.{pos, pos_part, mul_int-pos}
use ridingthecode.Common.Text.{Bytes}
use ridingthecode.Common.Fault.{◌>>=◌, Fault, ok, fault, ok->>=}
use ridingthecode.Sender.Header.{Header, header_size, flags, grab_header_info}
use ridingthecode.Sender.Header.RoundTrip.{grab_header_info-flags}
use ridingthecode.Sender.Client.{
  Packets, max_packets, filler_packets, payloads, header_of, send_all, tcp_deliver_packets,
}
use ridingthecode.Sender.Server.{
  tcp, SocketInformation, new_information, socket_event, socket_events, read_event, grab_header,
  process_header, block_of,
}
use ridingthecode.Sender.Server.Receiving.{sum, NoneEmpty, filler_received}

abbrev first_of : Fault Bytes → ℕ
first_of (ok b) = get_or b 0 0
first_of fault = b';'

-- A header that is printed begins with a semicolon.
flags-first : (h : Header) → first_of (flags h) ≡ b';'
unfolding flags
flags-first h = either _ _
  where
    either : (c : Bool) (t : Bytes) → first_of (if c then ok (b';' ∷ t) else fault) ≡ b';'
    either true t = refl
    either false t = refl

-- A block that is as long as the memory it is copied to replaces all of it.
copied_whole :
    (n : ℕ) (memory : Bytes)
    → length memory ≡ n
    → copy_to (replicate n 0) 0 (take n memory) ≡ memory
copied_whole n memory h =
    ap (λ m. copy_to (replicate n 0) 0 m) (take_all n memory (omega arith))
    ∙ copy_to_front (replicate n 0) memory 0 (omega (arith, length-replicate {A = ℕ} n 0))
    ∙ ap (λ r. memory ++ r)
        (drop_all (length memory) (replicate n 0) (omega (arith, length-replicate {A = ℕ} n 0)))
    ∙ append-nil memory

-- the server behind a header
abbrev waiting_for : Header → ℕ → SocketInformation
waiting_for h size = record {
  header = h;
  packets = h.packets;
  header_received = true;
  total_recv = 0;
  buffer = replicate size 0;
}

-- A server that waits for a header takes one in.
header_in :
    (memory : Bytes) (h : Header) (s : SocketInformation) (size packets : ℕ)
    → s.header_received ≡ false
    → length memory ≡ header_size
    → get_or memory 0 0 ≡ b';'
    → grab_header_info memory ≡ ok h
    → h.packet_size ≡ pos size
    → h.packets ≡ pos packets
    → size * packets < 2 ^ 31
    → socket_event tcp (some memory) s ≡ ok (waiting_for h (size * packets), [])
unfolding socket_event read_event grab_header process_header block_of
header_in memory h s size packets e l f g k m b =
    rw (e, copied_whole header_size memory l, f, g, k, m, mul_int-pos size packets b) refl

all_sent : (bs : List Bytes) → send_all bs [] ≡ bs
unfolding send_all
all_sent [] = refl
all_sent (b ∷ bs) = ap (λ l. b ∷ l) (all_sent bs)

sum-payloads :
    (size count : ℕ) (buff : Bytes)
    → length buff ≡ size
    → sum (map (λ n. take n buff) (replicate count size)) ≡ size * count
sum-payloads size zero buff h = omega arith
sum-payloads size (suc count) buff h =
    omega (arith, length-take size buff, sum-payloads size count buff h)

-- the header of a transfer of filler
abbrev filler_header : ℕ → ℕ → ℕ → Header
filler_header size count mode = record {
  total_size = pos (size * count);
  packet_size = pos size;
  packets = pos count;
  mode = pos mode;
}

-- the packets of filler, where the array and an `int` hold them
abbrev filler : ℕ → ℕ → Packets
filler size count = record {
  buff = set (replicate size b'p') (size - 1) 0;
  lens = replicate count size;
  total = size * count;
}

filler_packets-filler :
    (size count : ℕ)
    → count ≤ max_packets
    → size * count < 2 ^ 31
    → filler_packets size count ≡ ok (filler size count)
unfolding filler_packets
filler_packets-filler size count h k =
    if_true (ok (filler size count)) fault
      (ap₂ ◌&&◌ (le→leb count max_packets h) (lt→ltb (size * count) (2 ^ 31) k))

header_of-filler :
    (size count mode : ℕ)
    → header_of size (pos mode) (filler size count) ≡ filler_header size count mode
header_of-filler size count mode =
    ap
      (λ n. record {
        total_size = pos (size * count);
        packet_size = pos size;
        packets = pos n;
        mode = pos mode;
      })
      (length-replicate count size)

-- What the client sends: the header and all the packets.
client_sends :
    (size count mode : ℕ) (header : Bytes)
    → flags (filler_header size count mode) ≡ ok header
    → tcp_deliver_packets size (pos mode) [] (filler size count)
      ≡ ok (header ∷ payloads (filler size count))
unfolding tcp_deliver_packets
client_sends size count mode header h =
    let packets = payloads (filler size count) in
    ok->>= (λ b. ok (b ∷ send_all packets [])) (ap flags (header_of-filler size count mode) ∙ h)
    ∙ ap (λ l. ok (header ∷ l)) (all_sent packets)

packets_sum : (size count : ℕ) → sum (payloads (filler size count)) ≡ size * count
packets_sum size count =
    sum-payloads size count (filler size count).buff
      (length-set (replicate size b'p') (size - 1) 0 ∙ length-replicate size b'p')

-- Over TCP, where every send works, the client sends a transfer of filler that MAX_PACKETS allows as a
-- header and data of `count` packets of `size` bytes, and a server that waits for a header takes it in and ends the transfer, with
-- nothing done, with the last byte of the data, however these are cut into pieces, none of them empty but
-- maybe the first; it then waits for a new header. The mode is not that of files, and the numbers of the
-- header fit an `int`.
pub filler_transfer :
    (size count mode : ℕ) (p : Bytes) (ps : List Bytes) (s : SocketInformation)
    → size < 2 ^ 31
    → count ≤ max_packets
    → mode < 2 ^ 31
    → size * count < 2 ^ 31
    → mode ≢ 0
    → length p + sum ps ≡ size * count
    → NoneEmpty ps
    → s.header_received ≡ false
    → (header : Bytes) × (sends : List Bytes) × ((filler_packets size count
          >>= tcp_deliver_packets size (pos mode) [])
        ≡ ok (header ∷ sends))
      × (sum sends ≡ size * count)
      × (socket_events tcp (map some (header ∷ p ∷ ps)) s
          ≡ ok (new_information (replicate (size * count) 0), []))
unfolding tcp_deliver_packets socket_events
filler_transfer size count mode p ps s a b c d z e l w =
    let (header, printed, full, read) =
      grab_header_info-flags (size * count) size count mode d a (omega (arith, b)) c in
    let sends = payloads (filler size count) in
    (
      header,
      sends,
      ok->>= (tcp_deliver_packets size (pos mode) []) (filler_packets-filler size count b d)
          ∙ client_sends size count mode header printed,
      packets_sum size count,
      rw
          (
            header_in header (filler_header size count mode) s size count w full
                (sym (ap first_of printed) ∙ flags-first (filler_header size count mode)) read refl
                refl d,
            filler_received p ps (waiting_for (filler_header size count mode) (size * count)) refl
                (λ q. z (ap pos_part q)) l (ap pos (omega (arith, e))),
          )
          refl,
    )
