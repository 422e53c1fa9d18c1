-- ===== src/Chat/Channel/Joining.antt =====
-- What becomes of a client that asks to join a channel.
use ridingthecode.Common.{ℕ, ◌+◌, ◌≤◌, ◌<◌, ◌≡◌, ◌≢◌, ◌⊎◌, List, [], ◌∷◌, false, get_or, set}
use ridingthecode.Common.Text.{Bytes, c_string}
use ridingthecode.Common.Fault.{fault}
use ridingthecode.Chat.Packets.{max_clients}
use ridingthecode.Chat.Channel.{
  Channel, name_taken, join_name, Fault, pos, ℤ, Effect, join_socket, ok, sent, server_msg_pkt,
  write_packet, rejection, channel_info_pkt, acceptance,
}
use ridingthecode.Chat.Channel.Rows.{IsChannel}
use ridingthecode.Chat.Channel.Names.{HasNul, member_name, DistinctNames}

-- the new row, and the rows before it
module _ (info : Bytes) (ch : Channel) (v : IsChannel ch) (d : DistinctNames ch)
    (room : ch.current_clients < max_clients)
    (free : name_taken ch.client_names (c_string info) ch.current_clients 0 ≡ false)
    (nul : HasNul (join_name info)) where
  names' : List Bytes
  names' = set ch.client_names ch.current_clients (join_name info)

-- The channel `ch'` is `ch` with one more member, under a name that no member had.
pub record Joined (info : Bytes) (ch ch' : Channel) : Type 0 where
  pub is_new : (i : ℕ) → i < ch.current_clients → member_name ch i ≢ c_string (join_name info)
  pub counted : ch'.current_clients ≡ ch.current_clients + 1
  pub own_name : get_or ch'.client_names ch.current_clients [] ≡ join_name info
  pub own_socket : get_or ch'.socket_list ch.current_clients (pos 0) ≡ join_socket info
  pub other_names :
      (i : ℕ) → i < ch.current_clients → get_or ch'.client_names i [] ≡ get_or ch.client_names i []
  pub names : DistinctNames ch'

-- The packet by which a client is let in, or not.
abbrev pub reply : Bytes → ℤ → Bytes → List Effect
reply info type packet = sent (join_socket info) (write_packet type packet) ∷ []

abbrev pub JoinOutcome : Bytes → Bytes → Channel → Fault (Channel × List Effect) → Type 0
JoinOutcome stack info ch r =
    ((j : ℕ) × (j < ch.current_clients)
      × (member_name ch j ≡ c_string (join_name info))
      × (r ≡ ok (ch, reply info server_msg_pkt (rejection stack))))
    ⊎ (((ch' : Channel) × Joined info ch ch'
          × (r ≡ ok (ch', reply info channel_info_pkt (acceptance stack ch' ch.current_clients))))
        ⊎ ((max_clients ≤ ch.current_clients)
            × (name_taken ch.client_names (c_string info) ch.current_clients 0 ≡ false)
            × (r ≡ fault)))
