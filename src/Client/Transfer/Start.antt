-- ===== src/Client/Transfer/Start.antt =====
-- A new transfer: its counters, and a buffer full of data packets.
use ridingthecode.Common.{
  ℕ, ◌+◌, ◌*◌, ◌/◌, ◌^◌, ◌≤◌, ◌<◌, ◌≡◌, refl, ap, ◌∙◌, arith, length, replicate, length-replicate,
}
use ridingthecode.Common.Int.{
  pos, negsuc, pos_part, ◌+ℤ◌, mul_int, add_int, mul_int-pos, add_int-pos,
}
use ridingthecode.Common.Text.{Bytes}
use ridingthecode.Common.Fault.{ok}
use ridingthecode.Packet.{p_size, ip_len}
use ridingthecode.Client.Transfer.{TransferController, write_packet_buffer, new_transfer}
use ridingthecode.Client.Transfer.Packets.{write_packets_lem, filled, data_block}
use ridingthecode.Client.Transfer.Window.{View, InWindow}

write_packet_buffer_lem :
    (t : TransferController) (n : ℕ)
    → t.transfer_size ≡ pos (n * p_size)
    → length t.ipdest ≤ ip_len
    → length t.src_ip ≤ ip_len
    → write_packet_buffer t
      ≡ ok (record t { buffer = filled t.ipdest t.src_ip t.window_size n 0 t.buffer })
unfolding write_packet_buffer
write_packet_buffer_lem t n e h k =
    ground (arith, rounds, write_packets_lem t.ipdest t.src_ip t.window_size n 0 t.buffer h k)
  where
    rounds : pos_part t.transfer_size / p_size ≡ n
    rounds = ap (λ x. pos_part x / p_size) e ∙ whole n
      where
        whole : (n : ℕ) → n * p_size / p_size ≡ n
        whole n = omega arith

module _ (src dest : Bytes) (n w : ℕ) where
  -- the transfer before its packets are written
  abbrev started : TransferController
  started = record {
    current_seq = pos 1;
    current_ack = negsuc 0;
    current_window = pos 1;
    window_size = pos w;
    packet_size = pos p_size;
    transfer_size = mul_int (pos n) (pos p_size);
    ipdest = dest;
    src_ip = src;
    buffer = replicate (pos_part (add_int (mul_int (pos n) (pos p_size)) (pos p_size))) 0;
  }

  abbrev pub made : TransferController
  made = record started { buffer = filled dest src (pos w) n 0 started.buffer }

  size_lem : n * p_size + p_size < 2 ^ 31 → mul_int (pos n) (pos p_size) ≡ pos (n * p_size)
  size_lem b = mul_int-pos n p_size (omega (arith, b))

  room_lem :
      n * p_size + p_size < 2 ^ 31
      → add_int (mul_int (pos n) (pos p_size)) (pos p_size) ≡ pos (n * p_size + p_size)
  room_lem b = ap (λ x. add_int x (pos p_size)) (size_lem b) ∙ add_int-pos (n * p_size) p_size b

  new_transfer-made :
      length dest ≤ ip_len
      → length src ≤ ip_len
      → n * p_size + p_size < 2 ^ 31
      → new_transfer src dest (pos n) (pos w) ≡ ok made
  unfolding new_transfer
  new_transfer-made h k b =
      ground (arith, room_lem b, write_packet_buffer_lem started n (size_lem b) h k)

  made-length : n * p_size + p_size < 2 ^ 31 → n * p_size ≤ length started.buffer
  made-length b = omega (
    arith,
    length-replicate (pos_part (add_int (mul_int (pos n) (pos p_size)) (pos p_size))) (◌+◌ 0 0),
    ap pos_part (room_lem b),
  )

minus_one : negsuc 0 +ℤ pos 1 ≡ pos 0
unfolding ◌+ℤ◌
minus_one = refl

-- the view of a new transfer
pub made-View :
    (src dest : Bytes) (n w : ℕ)
    → length dest ≤ ip_len
    → length src ≤ ip_len
    → w < 2 ^ 31
    → n * p_size + p_size < 2 ^ 31
    → View (made src dest n w) n w 0 1 1
made-View src dest n w hd hs w1 b = record {
  next_seq = refl;
  acked = minus_one;
  window_no = refl;
  window_len = refl;
  packet_len = refl;
  total = size_lem src dest n w b;
  sized = b;
  dest_fits = hd;
  src_fits = hs;
  blocks = λ i h.
      data_block dest src (pos w) n i (started src dest n w).buffer (omega arith) (omega (arith, b))
        h (omega (arith, made-length src dest n w b));
}

pub start-InWindow : (n w : ℕ) → 0 < w → InWindow n w 0 1 1
start-InWindow n w h = record {
  sent_all = omega arith;
  sent_in = omega arith;
  base_in = omega arith;
  base_recent = omega arith;
}

-- For addresses that fit their fields, a positive window below 2 ^ 31 and packets whose block of
-- memory has a size below 2 ^ 31, the constructor succeeds: the first packet is next, nothing is acknowledged, the first
-- window is open, and the packets are in the buffer.
pub new_transfer-View :
    (src dest : Bytes) (n w : ℕ)
    → length dest ≤ ip_len
    → length src ≤ ip_len
    → 0 < w
    → w < 2 ^ 31
    → n * p_size + p_size < 2 ^ 31
    → (t : TransferController) × (new_transfer src dest (pos n) (pos w) ≡ ok t)
      × View t n w 0 1 1
      × InWindow n w 0 1 1
new_transfer-View src dest n w hd hs w0 w1 b = (
  made src dest n w,
  new_transfer-made src dest n w hd hs b,
  made-View src dest n w hd hs w1 b,
  start-InWindow n w w0,
)
