-- ===== src/Chat/Channel/Rows.antt =====
-- The rows of a channel in the static arrays of LinuxAssign3/server/src/ChannelSystem.cpp.
use ridingthecode.Common.{
  ℕ, if_true, if_false, lt→ltb, ◌<◌, ltb, false, ◌∙◌, zero, suc, ◌+◌, ◌≤◌, ◌≡◌, List, [], ◌∷◌,
  arith, length, set, replicate, length-replicate,
}
use ridingthecode.Common.Int.{ℤ, pos}
use ridingthecode.Common.Text.{Bytes}
use ridingthecode.Chat.Packets.{max_clients, max_user_name, max_channel_name}
use ridingthecode.Common.Fault.{ok, fault, ok->>=, fault->>=}
use ridingthecode.Chat.Channel.{
  Channel, new_channel, store, seated, admit, acceptance, join_socket, join_name, sent,
  write_packet, channel_info_pkt,
}

abbrev pub AllLength : ℕ → List Bytes → Type 0
AllLength n [] = Unit {0}
AllLength n (x ∷ xs) = (length x ≡ n) × AllLength n xs

-- The rows have the sizes of the arrays, and no more are in use than there are.
pub record IsChannel (ch : Channel) : Type 0 where
  pub names : length ch.client_names ≡ max_clients
  pub rows_fit : AllLength max_user_name ch.client_names
  pub sockets : length ch.socket_list ≡ max_clients
  pub in_use : ch.current_clients ≤ max_clients
  pub title : length ch.channel_name ≡ max_channel_name

pub AllLength-set :
    (n : ℕ) (xs : List Bytes) (i : ℕ) (v : Bytes)
    → AllLength n xs
    → length v ≡ n
    → AllLength n (set xs i v)
AllLength-set n [] i v h k = tt
AllLength-set n (x ∷ xs) zero v h k = (k, h.1)
AllLength-set n (x ∷ xs) (suc i) v h k = (h.0, AllLength-set n xs i v h.1 k)

pub AllLength-replicate : (n k : ℕ) (v : Bytes) → length v ≡ n → AllLength n (replicate k v)
AllLength-replicate n zero v h = tt
AllLength-replicate n (suc k) v h = (h, AllLength-replicate n k v h)

pub store_inside :
    {A : Type 0} (xs : List A) (i : ℕ) (v : A) → i < length xs → store xs i v ≡ ok (set xs i v)
unfolding store
store_inside xs i v h = if_true (ok (set xs i v)) fault (lt→ltb i (length xs) h)

-- the channel once the client of a packet is let in
abbrev pub admitted : Bytes → Channel → Channel
admitted info ch =
    seated info (set ch.socket_list ch.current_clients (join_socket info))
      (set ch.client_names ch.current_clients (join_name info)) ch

-- While there are rows the client is let in, and behind them it is written outside.
pub admit_room :
    (stack info : Bytes) (ch : Channel)
    → IsChannel ch
    → ch.current_clients < max_clients
    → admit stack info ch
      ≡ ok (
        admitted info ch,
        sent (join_socket info) (
              write_packet channel_info_pkt
                (acceptance stack (admitted info ch) ch.current_clients))
            ∷ [],
      )
unfolding admit
admit_room stack info ch v h =
    ok->>= _ (
      store_inside ch.socket_list ch.current_clients (join_socket info)
        (omega (arith, h, v.sockets)))
    ∙ ok->>= _ (
        store_inside ch.client_names ch.current_clients (join_name info)
          (omega (arith, h, v.names)))

pub admit_past :
    (stack info : Bytes) (ch : Channel)
    → IsChannel ch
    → max_clients ≤ ch.current_clients
    → admit stack info ch ≡ fault
unfolding admit store
admit_past stack info ch v h = fault->>= _ (
    if_false (ok (set ch.socket_list ch.current_clients (join_socket info))) fault
      (outside ch.current_clients (length ch.socket_list) (omega (arith, h, v.sockets))))
  where
    outside : (i n : ℕ) → n ≤ i → ltb i n ≡ false
    outside i n k = ground arith

-- A new channel has its rows, none in use.
pub new_channel-IsChannel :
    (name : Bytes) (fd : ℤ) → length name ≡ max_channel_name → IsChannel (new_channel name fd)
unfolding new_channel
new_channel-IsChannel name fd h = record {
  names = length-replicate max_clients (replicate max_user_name (zero + zero));
  rows_fit =
      AllLength-replicate max_user_name max_clients (replicate max_user_name (zero + zero))
        (length-replicate max_user_name (zero + zero));
  sockets = length-replicate max_clients (pos 0);
  in_use = omega arith;
  title = h;
}
