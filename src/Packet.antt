-- ===== src/Packet.antt =====
-- `struct packet_hdr` of 7005_NVirt/NVirt/include/definitions.h, the packet that the dummy client and
-- the emulator exchange, and its layout in memory: little-endian words, no padding.
pub mod Layout
use ridingthecode.Common.{
  ℕ, ◌+◌, ◌*◌, List, [], ◌∷◌, ◌++◌, ◌≡◌, take, drop, length, arith, Bool, ◌==◌, if◌then◌else◌,
}
use ridingthecode.Common.Int.{ℤ, pos, word_of, int_of, word_bytes, bytes_word, IsInt32, eq_ℤ}
use ridingthecode.Common.Text.{Bytes, codes, c_string}

abbrev pub header_size : ℕ
header_size = 56

abbrev pub data_load : ℕ
data_load = 2048

abbrev pub ip_len : ℕ
ip_len = 20

abbrev pub p_size : ℕ
p_size = 2104

-- `HEADER_SIZE + DATA_LOAD * 100`
abbrev pub buf_len : ℕ
buf_len = header_size + data_load * 100

abbrev pub ack : ℤ
ack = pos 1

abbrev pub payload : ℤ
payload = pos 2

abbrev pub eot : ℤ
eot = pos 3

-- `data` of the source is `load`.
pub record PacketHdr : Type 0 where
  pub ptype : ℤ
  pub ack_value : ℤ
  pub window_size : ℤ
  pub sequence_number : ℤ
  pub dest_ip : Bytes
  pub src_ip : Bytes
  pub load : Bytes

-- The fields have their declared sizes.
pub record IsPacket (p : PacketHdr) : Type 0 where
  pub ptype_fits : IsInt32 p.ptype
  pub ack_fits : IsInt32 p.ack_value
  pub window_fits : IsInt32 p.window_size
  pub sequence_fits : IsInt32 p.sequence_number
  pub dest_len : length p.dest_ip ≡ ip_len
  pub src_len : length p.src_ip ≡ ip_len
  pub load_len : length p.load ≡ data_load

abbrev pub int_bytes : ℤ → Bytes
int_bytes a = word_bytes (word_of a)

-- the object representation of a packet
unfoldable pub to_bytes : PacketHdr → Bytes
to_bytes p =
    int_bytes p.ptype
    ++ (int_bytes p.ack_value
        ++ (int_bytes p.window_size
            ++ (int_bytes p.sequence_number ++ (p.dest_ip ++ (p.src_ip ++ p.load)))))

abbrev pub int_at : ℕ → Bytes → ℤ
int_at off raw = int_of (bytes_word (drop off raw))

-- A packet seen through `(struct packet_hdr *)`.
unfoldable pub from_bytes : Bytes → PacketHdr
unfolding bytes_word
from_bytes raw = record {
  ptype = int_at 0 raw;
  ack_value = int_at 4 raw;
  window_size = int_at 8 raw;
  sequence_number = int_at 12 raw;
  dest_ip = take 20 (drop 16 raw);
  src_ip = take 20 (drop 36 raw);
  load = take 2048 (drop 56 raw);
}

-- `packet.dest_ip` passed as a C string: it runs to the first NUL, past the field if that has none.
unfoldable pub dest_text : Bytes → Bytes
dest_text raw = c_string (drop 16 raw)

-- `get_readable_type`
unfoldable pub get_readable_type : ℤ → Bytes
get_readable_type t =
    if eq_ℤ t ack
    then codes "ACK"
    else if eq_ℤ t eot
    then codes "EOT"
    else if eq_ℤ t payload
    then codes "DATA"
    else codes "UNKNOWN"
