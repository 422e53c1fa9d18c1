-- ===== src/Client/Transfer/Next.antt =====
-- What `readNextPacket` hands out, by the counters of the transfer.
use ridingthecode.Common.{
  ℕ, suc, ◌^◌, ◌+◌, ◌-◌, ◌*◌, ◌≤◌, ◌<◌, ◌≡◌, refl, ap, ◌∙◌, arith, leb, ap₂, ◌⊎◌,
}
use ridingthecode.Common.Int.{
  pos, pos_part, leb_ℤ, ◌*ℤ◌, ◌+ℤ◌, ◌-ℤ◌, mul_int, mul_int-pos, pos_add, pos_sub,
}
use ridingthecode.Common.Fault.{ok, fault}
use ridingthecode.Packet.{PacketHdr, p_size, to_bytes}
use ridingthecode.Client.Transfer.{
  TransferController, ready, finished, not_yet, read_next_packet, block_at, create_eot_packet,
}
use ridingthecode.Client.Transfer.Packets.{nth_packet}
use ridingthecode.Client.Transfer.Window.{View, counted-View}

module _ (t : TransferController) (n w a s k : ℕ) (v : View t n w a s k) where
  -- the three tests of `readNextPacket`, on the counters
  in_window_test :
      w * k < 2 ^ 31 → leb_ℤ t.current_seq (mul_int t.window_size t.current_window) ≡ leb s (w * k)
  in_window_test b =
      ap₂ leb_ℤ v.next_seq (ap₂ mul_int v.window_len v.window_no ∙ mul_int-pos w k b) ∙ ground arith

  sent_bytes : s ≤ n + 1 → mul_int t.current_seq t.packet_size ≡ pos (s * p_size)
  sent_bytes h =
      ap₂ mul_int v.next_seq v.packet_len ∙ mul_int-pos s p_size (omega (arith, h, v.sized))

  inside_test : s ≤ n + 1 → leb_ℤ (mul_int t.current_seq t.packet_size) t.transfer_size ≡ leb s n
  inside_test h = ap₂ leb_ℤ (sent_bytes h) v.total ∙ ground arith

  at_end_test : s ≤ n + 1 → leb_ℤ t.transfer_size (mul_int t.current_seq t.packet_size) ≡ leb n s
  at_end_test h = ap₂ leb_ℤ v.total (sent_bytes h) ∙ ground arith

-- With number 0 next, the code reads before its buffer.
pub read_next_zero :
    (t : TransferController) (n w a k : ℕ)
    → View t n w a 0 k
    → w * k < 2 ^ 31
    → read_next_packet t ≡ fault
unfolding read_next_packet block_at ◌-ℤ◌ ◌*ℤ◌ mul_int
read_next_zero t n w a k v b =
    rw
      (
        in_window_test t n w a 0 k v b,
        inside_test t n w a 0 k v (omega arith),
        v.next_seq,
        v.packet_len,
      )
      (ground arith)

module _ (t : TransferController) (n w a s k : ℕ) (v : View t n w a (suc s) k) where
  offset : s < n → mul_int (t.current_seq -ℤ pos 1) t.packet_size ≡ pos (p_size * s)
  offset h =
      ap₂ (λ x y. mul_int (x -ℤ pos 1) y) v.next_seq v.packet_len
      ∙ ap (λ x. mul_int x (pos p_size)) (pos_sub (suc s) 1 (omega arith))
      ∙ mul_int-pos (suc s - 1) p_size (omega (arith, h, v.sized))
      ∙ ap pos (times s)
    where
      times : (s : ℕ) → (suc s - 1) * p_size ≡ p_size * s
      times s = omega arith

  block_next :
      s < n
      → block_at t.buffer (mul_int (t.current_seq -ℤ pos 1) t.packet_size) (pos_part t.packet_size)
        ≡ ok (to_bytes (nth_packet t.ipdest t.src_ip t.window_size s))
  block_next h = ap₂ (block_at t.buffer) (offset h) (ap pos_part v.packet_len) ∙ v.blocks s h

  seq_after : t.current_seq +ℤ pos 1 ≡ pos (suc s + 1)
  seq_after = ap (λ x. x +ℤ pos 1) v.next_seq ∙ pos_add (suc s) 1

  -- the view once packet number `s + 1` is handed out
  pub sent-View : View (record t { current_seq = t.current_seq +ℤ pos 1 }) n w a (suc s + 1) k
  sent-View =
      counted-View t (record t { current_seq = t.current_seq +ℤ pos 1 }) v
        (record {
          window = refl;
          packet = refl;
          size = refl;
          dest = refl;
          src = refl;
          cells = refl;
        })
        seq_after v.acked v.window_no

-- Packet number `s + 1` in its turn, inside the window: it is handed out, and counted.
pub read_next_ready :
    (t : TransferController) (n w a s k : ℕ)
    → View t n w a (suc s) k
    → s < n
    → suc s ≤ w * k
    → w * k < 2 ^ 31
    → read_next_packet t
      ≡ ok (
          ready
            (to_bytes (nth_packet t.ipdest t.src_ip t.window_size s))
            (record t { current_seq = t.current_seq +ℤ pos 1 }))
unfolding read_next_packet
read_next_ready t n w a s k v h l b = ground (
  arith,
  in_window_test t n w a (suc s) k v b,
  inside_test t n w a (suc s) k v (omega arith),
  block_next t n w a s k v h,
)

-- Past the last packet, or at the last one outside the window: the end packet.
pub read_next_end :
    (t : TransferController) (n w a s k : ℕ) (packet : PacketHdr)
    → View t n w a s k
    → (n < s) ⊎ ((s ≡ n) × (w * k < s))
    → s ≤ n + 1
    → w * k < 2 ^ 31
    → create_eot_packet t ≡ ok packet
    → read_next_packet t ≡ ok (finished (to_bytes packet))
unfolding read_next_packet
read_next_end t n w a s k packet v h r b e = ground (
  arith,
  in_window_test t n w a s k v b,
  inside_test t n w a s k v (omega arith),
  at_end_test t n w a s k v (omega arith),
)

-- Before the last packet, with the window used up: nothing yet.
pub read_next_wait :
    (t : TransferController) (n w a s k : ℕ)
    → View t n w a s k
    → s < n
    → w * k < s
    → w * k < 2 ^ 31
    → read_next_packet t ≡ ok not_yet
unfolding read_next_packet
read_next_wait t n w a s k v h l b = ground (
  arith,
  in_window_test t n w a s k v b,
  inside_test t n w a s k v (omega arith),
  at_end_test t n w a s k v (omega arith),
)
