-- ===== src/Chat/Samples.antt =====
-- Packets and channels that the tests of the chat program use.
use ridingthecode.Common.{ℕ, ◌≡◌, refl, [], ◌∷◌, ◌++◌, arith, length, replicate, length-replicate}
use ridingthecode.Common.Int.{pos}
use ridingthecode.Common.Text.{Bytes, codes}
use ridingthecode.Chat.Channel.{Channel}
use ridingthecode.Chat.Channel.Rows.{IsChannel, AllLength-replicate}

abbrev pub blank : ℕ → Bytes
blank n = replicate n 0

pub blank-length : (n : ℕ) → length (blank n) ≡ n
blank-length n = length-replicate n 0

abbrev pub ann : Bytes
ann = codes "ann" ++ blank 17

abbrev pub bob : Bytes
bob = codes "bob" ++ blank 17

abbrev pub room : Bytes
room = codes "room" ++ blank 16

abbrev pub join_packet : Bytes
join_packet = ann ++ (room ++ blank 4)

-- a channel with two members
abbrev pub two_members : Channel
two_members = record {
  channel_name = room;
  client_names = ann ∷ bob ∷ replicate 98 (blank 20);
  socket_list = pos 7 ∷ pos 8 ∷ replicate 98 (pos 0);
  num_clients = 0;
  current_clients = 2;
  listen_fds = pos 8 ∷ pos 7 ∷ pos 5 ∷ [];
  max_fd = pos 8;
  type = pos 1;
}

abbrev pub text : Bytes
text = replicate 1024 b'a'

pub two_members-IsChannel : IsChannel two_members
two_members-IsChannel = record {
  names = refl;
  rows_fit = (refl, (refl, AllLength-replicate 20 98 (blank 20) refl));
  sockets = refl;
  in_use = omega arith;
  title = refl;
}

-- a channel with one member
abbrev pub one_member : Channel
one_member = record two_members {
  client_names = bob ∷ replicate 99 (blank 20);
  socket_list = pos 7 ∷ replicate 99 (pos 0);
  current_clients = 1;
}

pub one_member-IsChannel : IsChannel one_member
one_member-IsChannel = record {
  names = refl;
  rows_fit = (refl, AllLength-replicate 20 99 (blank 20) refl);
  sockets = refl;
  in_use = omega arith;
  title = refl;
}
