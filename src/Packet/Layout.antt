-- ===== src/Packet/Layout.antt =====
-- A packet written to memory and read back is the same packet.
use ridingthecode.Common.{
  ℕ, ◌≡◌, sym, ap, ◌∙◌, [], ◌++◌, arith, take, drop, length, length-append, take-length-append,
  drop-length-append, take_all, drop-add,
}
use ridingthecode.Common.Int.{
  ℤ, word_of, int_of, bytes_word, IsInt32, int_of-word_of, word_of-lt, bytes_word-word_bytes,
}
use ridingthecode.Common.Text.{Bytes}
use ridingthecode.Packet.{PacketHdr, IsPacket, to_bytes, from_bytes, int_bytes, p_size}

int_at-int_bytes :
    (a : ℤ) (rest : Bytes) → IsInt32 a → int_of (bytes_word (int_bytes a ++ rest)) ≡ a
unfolding bytes_word
int_at-int_bytes a rest h =
    ap int_of (bytes_word-word_bytes (word_of a) (word_of-lt a)) ∙ int_of-word_of a h

-- A packet occupies exactly `P_SIZE` bytes.
pub length-to_bytes : {p : PacketHdr} → IsPacket p → length (to_bytes p) ≡ p_size
unfolding to_bytes
length-to_bytes {p} v = omega (
  arith,
  length-append p.dest_ip (p.src_ip ++ p.load),
  length-append p.src_ip p.load,
  v.dest_len,
  v.src_len,
  v.load_len,
)

take_front : (n : ℕ) (xs ys : Bytes) → length xs ≡ n → take n (xs ++ ys) ≡ xs
take_front n xs ys h = ap (λ k. take k (xs ++ ys)) (sym h) ∙ take-length-append xs ys

drop_front : (n : ℕ) (xs ys : Bytes) → length xs ≡ n → drop n (xs ++ ys) ≡ ys
drop_front n xs ys h = ap (λ k. drop k (xs ++ ys)) (sym h) ∙ drop-length-append xs ys

drop_both : (xs ys zs : Bytes) → length xs ≡ 20 → length ys ≡ 20 → drop 40 (xs ++ (ys ++ zs)) ≡ zs
drop_both xs ys zs h k =
    drop-add 20 20 (xs ++ (ys ++ zs))
    ∙ ap (λ l. drop 20 l) (drop_front 20 xs (ys ++ zs) h)
    ∙ drop_front 20 ys zs k

-- A packet whose fields have their declared sizes, written to memory and read back, is the same
-- packet.
pub from_bytes-to_bytes : {p : PacketHdr} → IsPacket p → from_bytes (to_bytes p) ≡ p
unfolding from_bytes to_bytes
from_bytes-to_bytes {p} v = λ i. record {
  ptype = int_at-int_bytes p.ptype [] v.ptype_fits i;
  ack_value = int_at-int_bytes p.ack_value [] v.ack_fits i;
  window_size = int_at-int_bytes p.window_size [] v.window_fits i;
  sequence_number = int_at-int_bytes p.sequence_number [] v.sequence_fits i;
  dest_ip = take_front 20 p.dest_ip (p.src_ip ++ p.load) v.dest_len i;
  src_ip =
      (ap (λ l. take 20 l) (drop_front 20 p.dest_ip (p.src_ip ++ p.load) v.dest_len)
          ∙ take_front 20 p.src_ip p.load v.src_len)
        i;
  load =
      (ap (λ l. take 2048 l) (drop_both p.dest_ip p.src_ip p.load v.dest_len v.src_len)
          ∙ take_all 2048 p.load (omega arith))
        i;
}
