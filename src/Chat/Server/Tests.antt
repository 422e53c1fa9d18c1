-- ===== src/Chat/Server/Tests.antt =====
-- Uses of the theorems on the router of the server.
use ridingthecode.Common.{
  ℕ, zero, suc, ◌<◌, ◌≡◌, refl, List, [], ◌∷◌, ◌++◌, true, false, arith, some, get_or, replicate,
  none, if◌then◌else◌,
}
use ridingthecode.Common.Int.{pos}
use ridingthecode.Common.Text.{Bytes, codes, same_bytes, before}
use ridingthecode.Common.Fault.{ok}
use ridingthecode.Packet.{int_bytes}
use ridingthecode.Chat.Packets.{
  client_join_pkt, channel_info_pkt, write_packet, write_body, write_fields,
}
use ridingthecode.Chat.Channel.{
  Channel, Effect, sent, channel_turn, join_client, admit, store, acceptance, name_taken,
  clients_turn, client_add,
}
use ridingthecode.Common.{copy_to}
use ridingthecode.Common.Int.{bytes_word}
use ridingthecode.Common.Decimal.{is_space}
use ridingthecode.Chat.Channel.Names.{HasNul}
use ridingthecode.Chat.Server.{
  Router, with_socket, add_client, to_channel, channel_of, close_named, channel_create, main_turn,
  going, started,
}
use ridingthecode.Chat.Server.Names.{IsRouter, or_else, close_named-channel_of}
use ridingthecode.Chat.Server.Routing.{Arrives, routed_join}
use ridingthecode.Chat.Server.Console.{Console, input_line}
use ridingthecode.Chat.Server.Commands.{create_command}
use ridingthecode.Chat.Samples.{ann, blank, blank-length, bob, join_packet, one_member, room}

-- the packet that the router passes on to a channel
abbrev passed : Bytes
passed = with_socket join_packet (pos 9)

-- a server with one channel
abbrev one_channel : Router
one_channel = record {
  open_channels = 1;
  channel_name_list = room ∷ replicate 49 (blank 20);
  listen_fds = pos 5 ∷ pos 4 ∷ pos 3 ∷ [];
  max_fd = pos 5;
  type = pos 4;
}

one_channel-IsRouter : IsRouter one_channel
unfolding before
one_channel-IsRouter = record { names = refl; in_use = omega arith; ended = λ i l. ended i l }
  where
    ended : (i : ℕ) → i < 1 → HasNul (get_or (room ∷ replicate 49 (blank 20)) i [])
    ended zero l = omega arith
    ended (suc i) l = absurd (omega arith)

-- the channel that the client joins, and what it becomes
abbrev joined : Channel
joined = record one_member {
  client_names = bob ∷ ann ∷ replicate 98 (blank 20);
  socket_list = pos 7 ∷ pos 9 ∷ replicate 98 (pos 0);
  current_clients = 2;
  listen_fds = pos 9 ∷ pos 8 ∷ pos 7 ∷ pos 5 ∷ [];
  max_fd = pos 9;
  type = client_add;
}

abbrev told : List Effect
told = sent (pos 9) (write_packet channel_info_pkt (acceptance (blank 2028) joined 1)) ∷ []

join_packet-Arrives :
    Arrives client_join_pkt join_packet (int_bytes client_join_pkt) (join_packet ∷ []) []
unfolding write_packet write_body write_fields
join_packet-Arrives = record {
  sized = refl;
  flows = (omega arith, (omega arith, tt));
  whole_type = omega arith;
  bytes = refl;
}

routed_join_example :
    (add_client blank
        (blank 2028)
        (pos 9)
        (int_bytes client_join_pkt ∷ join_packet ∷ [])
        one_channel
      ≡ ok (to_channel 0 (int_bytes client_add) ∷ to_channel 0 passed ∷ []))
    × (channel_turn blank blank
          (λ fd. false)
          true
          one_member
          (int_bytes client_add ∷ passed ∷ [])
          (λ fd. [])
        ≡ clients_turn blank blank (λ fd. false) told joined [] (λ fd. []))
unfolding before join_client name_taken admit store same_bytes copy_to bytes_word
routed_join_example =
    routed_join blank blank (pos 9) join_packet (int_bytes client_join_pkt) (join_packet ∷ []) []
      one_channel 0 (λ fd. false) one_member joined told [] (λ fd. []) blank-length blank-length
      join_packet-Arrives (omega arith, omega arith, refl, λ m l p. absurd (omega arith)) refl

close_named-channel_of_example :
    channel_of (close_named (codes "room") one_channel).0 (codes "room") ≡ (
      if same_bytes (codes "room") (codes "room")
      then none
      else channel_of one_channel (codes "room"))
close_named-channel_of_example =
    close_named-channel_of (codes "room") (codes "room") one_channel one_channel-IsRouter
      (λ i j l m. absurd (omega arith)) (ground arith)

create_command_example :
    (name : Bytes) × (k' : Console) × (r' : Router) × (input_line
        (codes "/create " ++ (codes "news" ++ 10 ∷ []))
        (record { cmd = blank 1024; channelname = blank 20 })
      ≡ ok (k', int_bytes channel_create ∷ name ∷ [], false))
    × (main_turn blank blank (pos 6) none true (int_bytes channel_create ∷ name ∷ []) one_channel
        ≡ going r' [] (started 1 name (pos 6) ∷ []))
    × IsRouter r'
    × (channel_of r' (codes "news")
        ≡ or_else
            (channel_of one_channel (codes "news"))
            (if same_bytes (codes "news") (codes "news") then some 1 else none))
unfolding is_space
create_command_example =
    create_command blank blank (pos 6) (codes "news") (codes "news")
      (record { cmd = blank 1024; channelname = blank 20 }) [] one_channel
      (refl, ground arith, (refl, ground arith, (refl, ground arith, (refl, ground arith, tt))))
      (omega arith) (omega arith) refl (omega arith) one_channel-IsRouter (omega arith) refl
