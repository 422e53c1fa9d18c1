-- ===== src/Chat/Tests.antt =====
-- Uses of the theorems on packets and channels.
use ridingthecode.Common.{
  ◌≡◌, inr, refl, [], ◌∷◌, ◌++◌, false, arith, some, take, drop, if◌then◌else◌,
}
use ridingthecode.Common.Int.{pos, eq_ℤ}
use ridingthecode.Packet.{int_bytes}
use ridingthecode.Chat.Stream.{Stream}
use ridingthecode.Chat.Stream.Receive.{bytes_of, Flows}
use ridingthecode.Chat.Packets.{
  client_join_pkt, server_msg_pkt, read_packet, write_packet, write_body, write_fields,
}
use ridingthecode.Chat.Packets.RoundTrip.{write_packet-read_packet}
use ridingthecode.Chat.Channel.{
  process_incoming_message, broadcast_msg, process_client_quit, channel_turn, broken, broadcast,
}
use ridingthecode.Chat.Channel.Broadcast.{
  written_to, copies, written_to-process_incoming_message, message_delivered,
}
use ridingthecode.Chat.Channel.Quit.{quit_breaks}
use ridingthecode.Chat.Samples.{ann, blank, blank-length, join_packet, room, text, two_members}

write_packet-read_packet_example :
    (s' : Stream) × (read_packet blank
        (pos 9)
        ((int_bytes client_join_pkt ++ take 10 join_packet) ∷ (drop 10 join_packet ++ 7 ∷ []) ∷ [])
      ≡ (some join_packet, client_join_pkt, s'))
    × (bytes_of s' ≡ 7 ∷ [])
    × Flows s'
unfolding write_packet write_body write_fields
write_packet-read_packet_example =
    write_packet-read_packet blank (pos 9) client_join_pkt join_packet
      (int_bytes client_join_pkt ++ take 10 join_packet) ((drop 10 join_packet ++ 7 ∷ []) ∷ [])
      (7 ∷ []) blank-length (inr (inr (inr (inr refl)))) refl (omega arith, (omega arith, tt))
      (omega arith) refl

written_to-process_incoming_message_example :
    written_to (pos 8) (process_incoming_message (pos 7) text 0 two_members) ≡ (
      if eq_ℤ (pos 8) (pos 7)
      then []
      else copies
          (pos 8)
          (write_packet server_msg_pkt (broadcast_msg two_members text 0))
          (pos 7 ∷ pos 8 ∷ []))
written_to-process_incoming_message_example =
    written_to-process_incoming_message (pos 8) (pos 7) text 0 two_members

message_delivered_example :
    (s' : Stream) × (read_packet blank
        (pos 0)
        (int_bytes server_msg_pkt ∷ (ann ++ (text ++ room)) ∷ [])
      ≡ (some (ann ++ (text ++ room)), server_msg_pkt, s'))
    × (bytes_of s' ≡ [])
    × Flows s'
unfolding process_incoming_message broadcast broadcast_msg write_packet write_body write_fields
message_delivered_example =
    message_delivered blank (pos 0) (pos 8) (pos 7) text (int_bytes server_msg_pkt) 0 two_members
      ((ann ++ (text ++ room)) ∷ []) [] blank-length refl refl (omega arith) (ground arith)
      (ground arith) (omega arith, (omega arith, tt)) (omega arith) refl

quit_breaks_example :
    channel_turn blank blank (λ fd. false) false (process_client_quit 0 two_members).0 [] (λ fd. [])
    ≡ broken
quit_breaks_example =
    quit_breaks blank blank (λ fd. false) 0 two_members [] (λ fd. []) (omega arith)
