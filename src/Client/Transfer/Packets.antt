-- ===== src/Client/Transfer/Packets.antt =====
-- What `write_packet_buffer` puts into the buffer: each block is one data packet.
use ridingthecode.Common.{
  false, ℕ, zero, suc, ◌+◌, ◌*◌, ◌^◌, ◌≤◌, ◌<◌, ◌≡◌, refl, ap, ◌∙◌, arith, length, take, drop,
  replicate, copy_to, length-copy_to, length-replicate, slice-copy_to, slice-copy_to_before, le→leb,
  inl, inr, Bool-cases, ltb, ltb→lt, subst,
}
use ridingthecode.Common.Int.{ℤ, pos, IsInt32}
use ridingthecode.Common.Text.{Bytes}
use ridingthecode.Common.Fault.{ok}
use ridingthecode.Packet.{PacketHdr, IsPacket, p_size, data_load, ip_len, payload, to_bytes}
use ridingthecode.Packet.Layout.{length-to_bytes}
use ridingthecode.Client.Transfer.{ip_field, addressed, data_packet, write_packets, block_at}

-- an address in its field, padded with NULs
unfoldable pub padded : Bytes → Bytes
padded ip = copy_to (replicate ip_len 0) 0 ip

-- packet `i` of a transfer, counted from 0
unfoldable pub nth_packet : Bytes → Bytes → ℤ → ℕ → PacketHdr
nth_packet ipdest src_ip window i = record {
  ptype = payload;
  ack_value = pos i;
  window_size = window;
  sequence_number = pos (i + 1);
  dest_ip = padded ipdest;
  src_ip = padded src_ip;
  load = replicate data_load b'A';
}

pub ip_field_fits : (ip : Bytes) → length ip ≤ ip_len → ip_field ip ≡ ok (padded ip)
unfolding ip_field padded
ip_field_fits ip h = rw (le→leb (length ip) ip_len h)

pub length-padded : (ip : Bytes) → length (padded ip) ≡ ip_len
unfolding padded
length-padded ip = length-copy_to (replicate ip_len 0) 0 ip ∙ length-replicate ip_len (zero + zero)

pub nth_packet-IsPacket :
    (ipdest src_ip : Bytes) (window : ℤ) (i : ℕ)
    → IsInt32 window
    → i + 1 < 2 ^ 31
    → IsPacket (nth_packet ipdest src_ip window i)
unfolding nth_packet
nth_packet-IsPacket ipdest src_ip window i h k = record {
  ptype_fits = omega arith;
  ack_fits = omega arith;
  window_fits = h;
  sequence_fits = omega arith;
  dest_len = length-padded ipdest;
  src_len = length-padded src_ip;
  load_len = length-replicate {A = ℕ} data_load b'A';
}

module _ (ipdest src_ip : Bytes) (window : ℤ) where
  data_packet_lem :
      (i : ℕ)
      → length ipdest ≤ ip_len
      → length src_ip ≤ ip_len
      → data_packet ipdest src_ip window i ≡ ok (nth_packet ipdest src_ip window i)
  unfolding data_packet addressed nth_packet
  data_packet_lem i h k = rw (ip_field_fits ipdest h, ip_field_fits src_ip k)

  -- the buffer after `k` rounds from round `i` on
  pub filled : ℕ → ℕ → Bytes → Bytes
  filled zero i buffer = buffer
  filled (suc k) i buffer =
      filled k (i + 1) (copy_to buffer (p_size * i) (to_bytes (nth_packet ipdest src_ip window i)))

  pub write_packets_lem :
      (k i : ℕ) (buffer : Bytes)
      → length ipdest ≤ ip_len
      → length src_ip ≤ ip_len
      → write_packets ipdest src_ip window k i buffer ≡ ok (filled k i buffer)
  unfolding write_packets filled
  write_packets_lem zero i buffer h l = refl
  write_packets_lem (suc k) i buffer h l =
      rw (data_packet_lem i h l) (write_packets_lem k (i + 1) _ h l)

  pub length-filled : (k i : ℕ) (buffer : Bytes) → length (filled k i buffer) ≡ length buffer
  unfolding filled
  length-filled zero i buffer = refl
  length-filled (suc k) i buffer = length-filled k (i + 1) _ ∙ length-copy_to buffer (p_size * i) _

  length-packet :
      (i : ℕ)
      → IsInt32 window
      → i + 1 < 2 ^ 31
      → length (to_bytes (nth_packet ipdest src_ip window i)) ≡ p_size
  length-packet i h k = length-to_bytes (nth_packet-IsPacket ipdest src_ip window i h k)

  room :
      (k i : ℕ) (buffer xs : Bytes)
      → p_size * (i + suc k) ≤ length buffer
      → p_size * (i + 1 + k) ≤ length (copy_to buffer (p_size * i) xs)
  room k i buffer xs h = omega (arith, length-copy_to buffer (p_size * i) xs)

  -- Rounds from `i` on leave the blocks before `i` alone.
  filled_before :
      (k i j : ℕ) (buffer : Bytes)
      → IsInt32 window
      → i + k < 2 ^ 31
      → j < i
      → p_size * (i + k) ≤ length buffer
      → take p_size (drop (p_size * j) (filled k i buffer)) ≡ take p_size (drop (p_size * j) buffer)
  unfolding filled
  filled_before zero i j buffer w b h l = refl
  filled_before (suc k) i j buffer w b h l =
      filled_before k (i + 1) j
        (copy_to buffer (p_size * i) (to_bytes (nth_packet ipdest src_ip window i))) w (omega arith)
        (omega arith) (room k i buffer _ l)
      ∙ slice-copy_to_before buffer (p_size * i) (p_size * j) p_size _ 0 (omega arith)
          (omega (arith, length-packet i w (omega arith)))

  same : (i j : ℕ) → i ≤ j → ltb i j ≡ false → i ≡ j
  same i j h e = ground arith

  filled_block :
      (k i j : ℕ) (buffer : Bytes)
      → IsInt32 window
      → i + k < 2 ^ 31
      → i ≤ j
      → j < i + k
      → p_size * (i + k) ≤ length buffer
      → take p_size (drop (p_size * j) (filled k i buffer))
        ≡ to_bytes (nth_packet ipdest src_ip window j)
  unfolding filled
  filled_block zero i j buffer w b h m l = absurd (omega arith)
  filled_block (suc k) i j buffer w b h m l = elim (Bool-cases (ltb i j)) [
    | inl later ↦
        filled_block k (i + 1) j
          (copy_to buffer (p_size * i) (to_bytes (nth_packet ipdest src_ip window i))) w
          (omega arith) (omega (arith, ltb→lt i j later)) (omega arith) (room k i buffer _ l)
    | inr now ↦
        subst
          (λ x.
            take p_size (
              drop (p_size * x) (
                filled k (i + 1)
                  (copy_to buffer (p_size * i) (to_bytes (nth_packet ipdest src_ip window i)))))
            ≡ to_bytes (nth_packet ipdest src_ip window x))
          (same i j h now)
          (filled_before k (i + 1) i
              (copy_to buffer (p_size * i) (to_bytes (nth_packet ipdest src_ip window i))) w
              (omega arith) (omega arith) (room k i buffer _ l)
            ∙ slice-copy_to buffer (p_size * i) p_size
                (to_bytes (nth_packet ipdest src_ip window i)) 0 (length-packet i w (omega arith))
                (omega arith))
  ]

  pub data_block :
      (n i : ℕ) (buffer : Bytes)
      → IsInt32 window
      → n < 2 ^ 31
      → i < n
      → p_size * n ≤ length buffer
      → block_at (filled n 0 buffer) (pos (p_size * i)) p_size
        ≡ ok (to_bytes (nth_packet ipdest src_ip window i))
  unfolding block_at
  data_block n i buffer w b h l =
      rw
        (le→leb (p_size * i + p_size) (length (filled n 0 buffer))
          (omega (arith, length-filled n 0 buffer)))
        (ap ok
          (filled_block n 0 i buffer w (omega arith) (omega arith) (omega arith) (omega arith)))
