-- ===== src/Sender/Header.antt =====
-- The header in front of a transfer: how ClientMode.cpp of TCP_RUDP_Packet_Sender prints it and
-- grab_header_info of ServerMode.cpp reads it.
pub mod RoundTrip
use ridingthecode.Common.{
  ℕ, zero, suc, ◌+◌, ◌-◌, ◌^◌, List, [], ◌∷◌, ◌++◌, Option, none, some, length, replicate, ltb,
  ◌==◌, if◌then◌else◌,
}
use ridingthecode.Common.Int.{ℤ, pos, negsuc}
use ridingthecode.Common.Text.{Bytes}
use ridingthecode.Common.Decimal.{decimal, atoi}
use ridingthecode.Common.Fault.{Fault, ok, fault, ◌>>=◌}

abbrev pub header_size : ℕ
header_size = 50

-- `%d`
unfoldable pub print_int : ℤ → Bytes
print_int (pos n) = decimal n
print_int (negsuc n) = b'-' ∷ decimal (n + 1)

-- the numbers of a header
pub record Header : Type 0 where
  pub total_size : ℤ
  pub packet_size : ℤ
  pub packets : ℤ
  pub mode : ℤ

-- the text of `flags`
abbrev pub flags_text : Header → Bytes
flags_text h =
    b';'
    ∷ (print_int h.total_size
        ++ b','
          ∷ (print_int h.packet_size
              ++ b',' ∷ (print_int h.packets ++ b',' ∷ (print_int h.mode ++ b';' ∷ []))))

-- `flags` once printed, in its zeroed memory; `sprintf_s` stops the program where that is too small.
unfoldable pub flags : Header → Fault Bytes
flags h =
    let text = flags_text h in
    if ltb (length text) header_size
    then ok (text ++ replicate (header_size - length text) 0)
    else fault

push : ℕ → Fault (Bytes × Bytes) → Fault (Bytes × Bytes)
push x fault = fault
push x (ok (field, rest)) = ok (x ∷ field, rest)

-- One loop of `grab_header_info`: the bytes up to `separator`, and those behind it. It runs on past the
-- header where there is none.
unfoldable pub field_to : ℕ → Bytes → Fault (Bytes × Bytes)
unfolding push
field_to separator [] = fault
field_to separator (x ∷ xs) =
    let more = push x (field_to separator xs) in if x == separator then ok ([], xs) else more

-- The header's four variables have 100 bytes, which no field of a header of 50 fills.
unfoldable pub grab_header_info : Bytes → Fault Header
grab_header_info [] = fault
grab_header_info (x ∷ hd_buffer) = do
  (total, rest) ← field_to b',' hd_buffer
  (size, rest') ← field_to b',' rest
  (packets, rest'') ← field_to b',' rest'
  (mode, end) ← field_to b';' rest''
  ok (record {
    total_size = atoi total;
    packet_size = atoi size;
    packets = atoi packets;
    mode = atoi mode;
  })
