-- ===== src/Client/Transfer.antt =====
-- 7005_NVirt/Client/src/TransferController.cpp: one transfer, sent through a sliding window.
-- Products and sums of sizes wrap around as an `int` does. An address of more than `IP_LEN` bytes overflows its field: a fault.
pub mod Packets
pub mod Window
pub mod Next
pub mod Start
use ridingthecode.Common.{
  ℕ, zero, suc, ◌+◌, ◌*◌, ◌/◌, List, [], ◌∷◌, Bool, true, false, ◌&&◌, Option, none, some,
  replicate, length, take, drop, copy_to, leb, if◌then◌else◌,
}
use ridingthecode.Common.Int.{
  ℤ, pos, negsuc, ◌+ℤ◌, ◌-ℤ◌, mul_int, add_int, sub_ℕ, leb_ℤ, ltb_ℤ, eq_ℤ, pos_part,
}
use ridingthecode.Common.Text.{Bytes, codes, same_bytes}
use ridingthecode.Common.Fault.{Fault, ok, fault, ◌>>=◌}
use ridingthecode.Packet.{PacketHdr, p_size, data_load, ip_len, payload, eot, to_bytes}

pub record TransferController : Type 0 where
  pub current_seq : ℤ
  pub current_ack : ℤ
  pub current_window : ℤ
  pub window_size : ℤ
  pub packet_size : ℤ
  pub transfer_size : ℤ
  pub ipdest : Bytes
  pub src_ip : Bytes
  pub buffer : Bytes

-- An entry of `getifaddrs`: the name, and the address as text where it is an IPv4 address.
pub record Interface : Type 0 where
  pub name : Bytes
  pub inet : Option Bytes

-- The last address of `wlan0`; without one, what the uninitialised array holds.
unfoldable pub grab_ip : Bytes → List Interface → Bytes
grab_ip address_buffer [] = address_buffer
grab_ip address_buffer (i ∷ rest) =
    grab_ip
      (elim i.inet [
        | none ↦ address_buffer
        | some text ↦ if same_bytes i.name (codes "wlan0") then text else address_buffer
      ])
      rest

-- `memcpy(field, ip.c_str(), strlen(…))` into a zeroed field
unfoldable pub ip_field : Bytes → Fault Bytes
ip_field ip = if leb (length ip) ip_len then ok (copy_to (replicate ip_len 0) 0 ip) else fault

-- a packet with both addresses set
pub addressed : PacketHdr → Bytes → Bytes → Fault PacketHdr
addressed p ipdest src_ip = do
  dest ← ip_field ipdest
  src ← ip_field src_ip
  ok (record p { dest_ip = dest; src_ip = src })

-- the packet that the loop of `write_packet_buffer` makes in its round `i`
unfoldable pub data_packet : Bytes → Bytes → ℤ → ℕ → Fault PacketHdr
unfolding addressed
data_packet ipdest src_ip window i =
    addressed
      (record {
        ptype = payload;
        ack_value = pos i;
        window_size = window;
        sequence_number = pos (i + 1);
        dest_ip = [];
        src_ip = [];
        load = replicate data_load b'A';
      })
      ipdest src_ip

-- `memset(data, 'A', strlen(data))` writes nothing, since the packet was zeroed just before.
unfoldable pub create_eot_packet : TransferController → Fault PacketHdr
unfolding addressed
create_eot_packet t =
    addressed
      (record {
        ptype = eot;
        ack_value = pos 0;
        window_size = pos 0;
        sequence_number = pos 0;
        dest_ip = [];
        src_ip = [];
        load = replicate data_load 0;
      })
      t.ipdest t.src_ip

-- the loop of `write_packet_buffer`, with `k` rounds left before round `i`
unfoldable pub write_packets : Bytes → Bytes → ℤ → ℕ → ℕ → Bytes → Fault Bytes
write_packets ipdest src_ip window zero i buffer = ok buffer
write_packets ipdest src_ip window (suc k) i buffer = do
  packet ← data_packet ipdest src_ip window i
  write_packets ipdest src_ip window k (i + 1) (copy_to buffer (p_size * i) (to_bytes packet))

-- `transfer_size/packet_size` rounds; a negative size gives none.
unfoldable pub write_packet_buffer : TransferController → Fault TransferController
write_packet_buffer t = do
  buffer ←
      write_packets t.ipdest t.src_ip t.window_size (pos_part t.transfer_size / p_size) 0 t.buffer
  ok (record t { buffer = buffer })

-- `malloc` of a negative size, as `size_t`, fails, and `memset` then writes through null.
unfoldable pub new_transfer : Bytes → Bytes → ℤ → ℤ → Fault TransferController
new_transfer src_ip ip_dest num_packets win_size =
    let transfer_size = mul_int num_packets (pos p_size) in
    let room = add_int transfer_size (pos p_size) in
    if ltb_ℤ room (pos 0)
    then fault
    else write_packet_buffer (record {
      current_seq = pos 1;
      current_ack = negsuc 0;
      current_window = pos 1;
      window_size = win_size;
      packet_size = pos p_size;
      transfer_size = transfer_size;
      ipdest = ip_dest;
      src_ip = src_ip;
      buffer = replicate (pos_part room) 0;
    })

-- `memcpy(packet, buffer + offset, n)`: an offset outside the buffer is a fault.
unfoldable pub block_at : Bytes → ℤ → ℕ → Fault Bytes
block_at buffer (negsuc k) n = fault
block_at buffer (pos off) n =
    if leb (off + n) (length buffer) then ok (take n (drop off buffer)) else fault

-- What `readNextPacket` returns: 1 with the next packet, 2 with an end packet, or 0.
pub data NextPacket : Type 0 where
  ready : Bytes → TransferController → NextPacket
  finished : Bytes → NextPacket
  not_yet : NextPacket

unfoldable pub read_next_packet : TransferController → Fault NextPacket
read_next_packet t =
    let in_window = leb_ℤ t.current_seq (mul_int t.window_size t.current_window) in
    let inside = leb_ℤ (mul_int t.current_seq t.packet_size) t.transfer_size in
    let at_end = leb_ℤ t.transfer_size (mul_int t.current_seq t.packet_size) in
    if in_window && inside
    then (do
      packet ←
          block_at t.buffer (mul_int (t.current_seq -ℤ pos 1) t.packet_size)
            (pos_part t.packet_size)
      ok (ready packet (record t { current_seq = t.current_seq +ℤ pos 1 })))
    else if at_end
    then (do packet ← create_eot_packet t; ok (finished (to_bytes packet)))
    else ok not_yet

-- 2 where the window slides, 1 where the ack is the next one, 0 where it is not.
unfoldable pub verify_ack : TransferController → PacketHdr → ℕ × TransferController
verify_ack t packet =
    let t' = record t { current_ack = t.current_ack +ℤ pos 1 } in
    if eq_ℤ packet.ack_value (t.current_ack +ℤ pos 1)
    then if eq_ℤ (mul_int t.current_window t.window_size) (t'.current_ack +ℤ pos 1)
      then (2, record t' { current_window = t.current_window +ℤ pos 1 })
      else (1, t')
    else (0, t)

-- `current_seq = current_ack + 1`, after a bad ack or a timeout
unfoldable pub go_back : TransferController → TransferController
go_back t = record t { current_seq = t.current_ack +ℤ pos 1 }

-- The copy constructor: `src_ip` is left empty and `buffer` is not set.
unfoldable pub copy_transfer : Bytes → TransferController → TransferController
copy_transfer garbage obj = record obj { src_ip = []; buffer = garbage }
