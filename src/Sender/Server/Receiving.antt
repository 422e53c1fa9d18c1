-- ===== src/Sender/Server/Receiving.antt =====
-- When the server takes a transfer to be over.
use ridingthecode.Common.{
  ℕ, ◌+◌, ◌<◌, ◌≡◌, ◌≢◌, refl, ap, ◌∙◌, List, [], ◌∷◌, true, false, arith, some, length, map,
}
use ridingthecode.Common.Int.{pos, eq_ℤ, eq_ℤ_iff, ◌-ℤ◌}
use ridingthecode.Common.Text.{Bytes}
use ridingthecode.Common.Fault.{ok}
use ridingthecode.Sender.Server.{
  tcp, SocketInformation, new_information, init_receive, read_event, socket_event, socket_events,
  is_over, transfer_completion, file_mode,
}

-- the bytes of some pieces, of which none is empty
abbrev pub sum : List Bytes → ℕ
sum [] = 0
sum (p ∷ ps) = length p + sum ps

abbrev pub NoneEmpty : List Bytes → Type 0
NoneEmpty [] = Unit {0}
NoneEmpty (p ∷ ps) = (0 < length p) × NoneEmpty ps

-- the state after a piece of filler that is not the last
abbrev taken : ℕ → SocketInformation → SocketInformation
taken n s = record s { packets = s.packets -ℤ pos 1; total_recv = s.total_recv + n }

module _ (p : Bytes) (s : SocketInformation) (h : s.header_received ≡ true)
    (k : eq_ℤ s.header.mode file_mode ≡ false) where
  last_piece :
      eq_ℤ (pos (s.total_recv + length p)) s.header.total_size ≡ true
      → socket_event tcp (some p) s ≡ ok (new_information s.buffer, [])
  unfolding socket_event read_event init_receive is_over transfer_completion
  last_piece e = rw (h, k, e, k) refl

  piece_between :
      eq_ℤ (pos (s.total_recv + length p)) s.header.total_size ≡ false
      → socket_event tcp (some p) s ≡ ok (taken (length p) s, [])
  unfolding socket_event read_event init_receive is_over transfer_completion
  piece_between e = rw (h, k, e) refl

no_file : (s : SocketInformation) → s.header.mode ≢ file_mode → eq_ℤ s.header.mode file_mode ≡ false
no_file s k = ground (arith, eq_ℤ_iff s.header.mode file_mode)

-- Once its header has come, a transfer over TCP that is not a file ends with the piece that
-- completes the size of its header, however the rest of it is cut into pieces, none of them empty
-- but maybe the first, and the server waits for a new header.
pub filler_received :
    (p : Bytes) (ps : List Bytes) (s : SocketInformation)
    → s.header_received ≡ true
    → s.header.mode ≢ file_mode
    → NoneEmpty ps
    → s.header.total_size ≡ pos (s.total_recv + (length p + sum ps))
    → socket_events tcp (map some (p ∷ ps)) s ≡ ok (new_information s.buffer, [])
unfolding socket_events
filler_received p [] s h k l e = rw (last_piece p s h (no_file s k) (complete p s e)) refl
  where
    complete :
        (p : Bytes) (s : SocketInformation)
        → s.header.total_size ≡ pos (s.total_recv + (length p + 0))
        → eq_ℤ (pos (s.total_recv + length p)) s.header.total_size ≡ true
    complete p s e = rw e (ground arith)
filler_received p (q ∷ qs) s h k l e =
    rw
      (
        piece_between p s h (no_file s k) (incomplete p q s e l.0),
        filler_received q qs (taken (length p) s) h k l.1 (e ∙ ap pos (omega arith)),
      )
      refl
  where
    incomplete :
        (p q : Bytes) (s : SocketInformation)
        → s.header.total_size ≡ pos (s.total_recv + (length p + (length q + sum qs)))
        → 0 < length q
        → eq_ℤ (pos (s.total_recv + length p)) s.header.total_size ≡ false
    incomplete p q s e l = rw e (ground arith)
