-- ===== src/Client/Transfer/Window.antt =====
-- The sliding window of a transfer: what each operation does to the counters, and what stays true.
use ridingthecode.Common.{
  ℕ, ◌+◌, ◌*◌, ◌^◌, ap₂, ◌≤◌, ◌<◌, ◌≡◌, ◌≢◌, ap, ◌∙◌, false, arith, length, ◌==◌, if◌then◌else◌,
  Bool-cases, inl, inr, ==→eq, ◌⊎◌,
}
use ridingthecode.Common.Int.{ℤ, pos, ◌+ℤ◌, pos_add, mul_int, mul_int-pos, eq_ℤ, eq_ℤ_iff}
use ridingthecode.Common.Text.{Bytes}
use ridingthecode.Common.Fault.{ok}
use ridingthecode.Packet.{PacketHdr, p_size, ip_len, to_bytes}
use ridingthecode.Client.Transfer.{TransferController, verify_ack, go_back, block_at}
use ridingthecode.Client.Transfer.Packets.{nth_packet}

-- The first `n` blocks of a buffer are the data packets of the transfer.
abbrev pub Blocks : Bytes → Bytes → Bytes → ℤ → ℕ → Type 0
Blocks buffer ipdest src_ip window n =
    (i : ℕ)
    → i < n
    → block_at buffer (pos (p_size * i)) p_size ≡ ok (to_bytes (nth_packet ipdest src_ip window i))

-- A transfer of `n` packets with window `w`: `a` packets are acknowledged, packet number `s` (from 1)
-- is the next to send, the window ends with packet number `w * k`, and its block of memory has a size
-- that an `int` holds.
pub record View (t : TransferController) (n w a s k : ℕ) : Type 0 where
  pub next_seq : t.current_seq ≡ pos s
  pub acked : t.current_ack +ℤ pos 1 ≡ pos a
  pub window_no : t.current_window ≡ pos k
  pub window_len : t.window_size ≡ pos w
  pub packet_len : t.packet_size ≡ pos p_size
  pub total : t.transfer_size ≡ pos (n * p_size)
  pub sized : n * p_size + p_size < 2 ^ 31
  pub dest_fits : length t.ipdest ≤ ip_len
  pub src_fits : length t.src_ip ≤ ip_len
  pub blocks : Blocks t.buffer t.ipdest t.src_ip t.window_size n

-- Nothing is sent beyond the window or the last packet; the window holds the first packet that is
-- not acknowledged, and no more than `w` packets from there on.
pub record InWindow (n w a s k : ℕ) : Type 0 where
  pub sent_all : s ≤ n + 1
  pub sent_in : s ≤ w * k + 1
  pub base_in : a < w * k
  pub base_recent : w * k ≤ a + w

-- At most a window of packets is sent and not acknowledged.
pub in_flight-le : {n w a s k : ℕ} → InWindow n w a s k → s ≤ a + w + 1
in_flight-le v = omega arith

-- The operations change the counters alone.
pub record Keeps (t t' : TransferController) : Type 0 where
  pub window : t'.window_size ≡ t.window_size
  pub packet : t'.packet_size ≡ t.packet_size
  pub size : t'.transfer_size ≡ t.transfer_size
  pub dest : t'.ipdest ≡ t.ipdest
  pub src : t'.src_ip ≡ t.src_ip
  pub cells : t'.buffer ≡ t.buffer

Keeps-Blocks :
    (t t' : TransferController) (n : ℕ)
    → Keeps t t'
    → Blocks t.buffer t.ipdest t.src_ip t.window_size n
    → Blocks t'.buffer t'.ipdest t'.src_ip t'.window_size n
Keeps-Blocks t t' n e b = rw (e.cells, e.dest, e.src, e.window) b

-- A view after new counters.
pub counted-View :
    (t t' : TransferController) {n w a s k a' s' k' : ℕ}
    → View t n w a s k
    → Keeps t t'
    → t'.current_seq ≡ pos s'
    → t'.current_ack +ℤ pos 1 ≡ pos a'
    → t'.current_window ≡ pos k'
    → View t' n w a' s' k'
counted-View t t' {n = n} v e x y z = record {
  next_seq = x;
  acked = y;
  window_no = z;
  window_len = e.window ∙ v.window_len;
  packet_len = e.packet ∙ v.packet_len;
  total = e.size ∙ v.total;
  sized = v.sized;
  dest_fits = rw e.dest v.dest_fits;
  src_fits = rw e.src v.src_fits;
  blocks = Keeps-Blocks t t' n e v.blocks;
}

verify_ack-Keeps : (t : TransferController) (p : PacketHdr) → Keeps t (verify_ack t p).1
unfolding verify_ack
verify_ack-Keeps t p = ground arith

window_end :
    (t : TransferController) (n w a s k : ℕ)
    → View t n w a s k
    → w * k < 2 ^ 31
    → mul_int t.current_window t.window_size ≡ pos (w * k)
window_end t n w a s k v b =
    ap₂ mul_int v.window_no v.window_len ∙ mul_int-pos k w (omega arith) ∙ ap pos (omega arith)

verify_ack_good :
    (t : TransferController) (p : PacketHdr) (n w a s k : ℕ)
    → View t n w a s k
    → w * k < 2 ^ 31
    → p.ack_value ≡ pos a
    → View (verify_ack t p).1 n w (a + 1) s (if w * k == a + 1 then k + 1 else k)
unfolding verify_ack
verify_ack_good t p n w a s k v b e =
    counted-View t (verify_ack t p).1 v (verify_ack-Keeps t p) (ground arith)
      (ground (arith, pos_add a 1, prod)) (ground (arith, pos_add a 1, prod, pos_add k 1))
  where
    prod : mul_int t.current_window t.window_size ≡ pos (w * k)
    prod = window_end t n w a s k v b

-- Where an `int` holds the end of the window, the ack of the first packet that is not acknowledged
-- counts that packet, and slides the window where it was the last of the window; any other ack changes nothing, and is answered with 0.
pub verify_ack_lem :
    (t : TransferController) (p : PacketHdr) (n w a s k : ℕ)
    → View t n w a s k
    → w * k < 2 ^ 31
    → (p.ack_value ≡ pos a
        → View (verify_ack t p).1 n w (a + 1) s (if w * k == a + 1 then k + 1 else k)
          × ((verify_ack t p).0 ≡ (if w * k == a + 1 then 2 else 1)))
      × (p.ack_value ≢ pos a → verify_ack t p ≡ (0, t))
unfolding verify_ack
verify_ack_lem t p n w a s k v b = (
  λ e. (verify_ack_good t p n w a s k v b e, ground (arith, pos_add a 1, prod)),
  λ h. ground (arith, eq_ℤ_iff p.ack_value (pos a), h),
)
  where
    prod : mul_int t.current_window t.window_size ≡ pos (w * k)
    prod = window_end t n w a s k v b

-- With the counters of a view, and a window whose end an `int` holds, an ack is one of two: that of the first packet not acknowledged, which
-- counts it and slides the window where it was the last of the window, with 2 or 1 as the answer; or
-- another one, which changes nothing and is answered with 0.
pub verify_ack_answer :
    (t : TransferController) (p : PacketHdr) (n w a s k : ℕ)
    → View t n w a s k
    → w * k < 2 ^ 31
    → ((p.ack_value ≡ pos a)
        × View (verify_ack t p).1 n w (a + 1) s (if w * k == a + 1 then k + 1 else k)
        × ((verify_ack t p).0 ≡ (if w * k == a + 1 then 2 else 1)))
      ⊎ ((p.ack_value ≢ pos a) × (verify_ack t p ≡ (0, t)))
verify_ack_answer t p n w a s k v b = elim (Bool-cases (eq_ℤ p.ack_value (pos a))) [
  | inl e ↦ inl (
    (eq_ℤ_iff p.ack_value (pos a)).0 e,
    ((verify_ack_lem t p n w a s k v b).0 ((eq_ℤ_iff p.ack_value (pos a)).0 e)).0,
    ((verify_ack_lem t p n w a s k v b).0 ((eq_ℤ_iff p.ack_value (pos a)).0 e)).1,
  )
  | inr e ↦ inr (other e, (verify_ack_lem t p n w a s k v b).1 (other e))
]
  where
    other : eq_ℤ p.ack_value (pos a) ≡ false → p.ack_value ≢ pos a
    other e h = ground (arith, eq_ℤ_iff p.ack_value (pos a))

-- The counters stay in the window when the next packet is acknowledged.
pub verify_ack-InWindow :
    (n w a s k : ℕ)
    → 0 < w
    → InWindow n w a s k
    → InWindow n w (a + 1) s (if w * k == a + 1 then k + 1 else k)
verify_ack-InWindow n w a s k h v = elim (Bool-cases (w * k == a + 1)) [
  | inl e ↦ rw e (record {
    sent_all = v.sent_all;
    sent_in = omega (arith, v.sent_in);
    base_in = omega (arith, ==→eq (w * k) (a + 1) e);
    base_recent = omega (arith, ==→eq (w * k) (a + 1) e);
  })
  | inr e ↦ rw e (record {
    sent_all = v.sent_all;
    sent_in = v.sent_in;
    base_in = ne_lt a (w * k) e v.base_in;
    base_recent = omega (arith, v.base_recent);
  })
]
  where
    ne_lt : (a m : ℕ) → (m == a + 1) ≡ false → a < m → a + 1 < m
    ne_lt a m e h = ground arith

-- With the counters in the window and no more packets acknowledged than there are, going back makes
-- the last acknowledged packet, or number 0, the next one to send, and keeps the counters in the
-- window.
pub go_back_lem :
    (t : TransferController) (n w a s k : ℕ)
    → View t n w a s k
    → InWindow n w a s k
    → a ≤ n
    → View (go_back t) n w a a k × InWindow n w a a k
unfolding go_back
go_back_lem t n w a s k v i h = (
  counted-View t (go_back t) v (ground arith) v.acked v.acked v.window_no,
  record {
    sent_all = omega arith;
    sent_in = omega (arith, i.base_in);
    base_in = i.base_in;
    base_recent = i.base_recent;
  },
)
