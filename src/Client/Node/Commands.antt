-- ===== src/Client/Node/Commands.antt =====
-- What the client's commands do, from 7005_NVirt/Client/src/CommandController.cpp.
use ridingthecode.Common.{
  ℕ, ◌+◌, ◌*◌, ◌^◌, ◌≤◌, ◌<◌, ◌≡◌, refl, ap, ◌∙◌, [], ◌∷◌, ◌++◌, length, ap₂,
}
use ridingthecode.Common.Int.{pos}
use ridingthecode.Common.Text.{Bytes, codes, before, same_bytes, substr, substr_front}
use ridingthecode.Common.Decimal.{decimal, extract_int, extract_int-decimal}
use ridingthecode.Packet.{p_size, ip_len}
use ridingthecode.Client.Transfer.{TransferController, new_transfer}
use ridingthecode.Client.Transfer.Window.{View, InWindow}
use ridingthecode.Client.Transfer.Start.{new_transfer-View}
use ridingthecode.Client.Node.{
  Node, Outcome, running, check_command, with_rest, or_keep, add_transfer,
}

rest_of_line :
    (p : ℕ) (front rest : Bytes) (f : Bytes → Outcome)
    → length front ≡ p
    → with_rest (substr p (front ++ rest)) f ≡ f rest
rest_of_line p front rest f h = ap (λ o. with_rest o f) (substr_front p front rest h)

-- `/setWindow n` sets the window of the transfers to come to `n`, for every `n` below 2 ^ 31.
pub setwindow_sets :
    (host : Bytes) (s : Node) (n : ℕ)
    → n < 2 ^ 31
    → check_command host s (codes "/setWindow " ++ decimal n)
      ≡ running (record s { window_size = pos n })
unfolding check_command before same_bytes
setwindow_sets host s n h =
    rest_of_line 11 (codes "/setWindow ") (decimal n)
      (λ d. running (record s { window_size = or_keep (extract_int d) s.window_size })) refl
    ∙ ap (λ o. running (record s { window_size = or_keep o s.window_size }))
        (extract_int-decimal n h)

-- `/setNumPackets n` sets the length of the transfers to come to `n` packets, for every `n` below
-- 2 ^ 31.
pub setnumpackets_sets :
    (host : Bytes) (s : Node) (n : ℕ)
    → n < 2 ^ 31
    → check_command host s (codes "/setNumPackets " ++ decimal n)
      ≡ running (record s { num_packets = pos n })
unfolding check_command before same_bytes
setnumpackets_sets host s n h =
    rest_of_line 15 (codes "/setNumPackets ") (decimal n)
      (λ d. running (record s { num_packets = or_keep (extract_int d) s.num_packets })) refl
    ∙ ap (λ o. running (record s { num_packets = or_keep o s.num_packets }))
        (extract_int-decimal n h)

send_command :
    (host dest : Bytes) (s : Node)
    → check_command host s (codes "/send " ++ dest)
      ≡ add_transfer s (new_transfer host dest s.num_packets s.window_size)
unfolding check_command before same_bytes
send_command host dest s =
    rest_of_line 6 (codes "/send ") dest
      (λ d. add_transfer s (new_transfer host d s.num_packets s.window_size)) refl

-- `/send dest` puts one transfer to `dest` behind those that wait: of the set number of packets and
-- window, with its packets in the buffer, the first one next and nothing acknowledged; `dest` and the
-- host's own address fit their fields, the window is positive, and it and the size of the packets and one
-- more are below 2 ^ 31.
pub send_queues :
    (host dest : Bytes) (s : Node) (n w : ℕ)
    → s.num_packets ≡ pos n
    → s.window_size ≡ pos w
    → length dest ≤ ip_len
    → length host ≤ ip_len
    → 0 < w
    → w < 2 ^ 31
    → n * p_size + p_size < 2 ^ 31
    → (t : TransferController) × (check_command host s (codes "/send " ++ dest)
        ≡ running (record s { transfers = s.transfers ++ t ∷ [] }))
      × View t n w 0 1 1
      × InWindow n w 0 1 1
unfolding add_transfer
send_queues host dest s n w en ew hd hh w0 w1 n1 =
    let (t, e, v, i) = new_transfer-View host dest n w hd hh w0 w1 n1 in
    (
      t,
      send_command host dest s
          ∙ ap₂ (λ a b. add_transfer s (new_transfer host dest a b)) en ew
          ∙ ap (add_transfer s) e,
      v,
      i,
    )
