-- ===== src/Chat/Server/Routing.antt =====
-- A client's way through the router to its channel.
use ridingthecode.Common.{
  ℕ, suc, ◌≤◌, ◌≡◌, ◌≢◌, inr, refl, sym, ap, ◌∙◌, List, [], ◌∷◌, ◌++◌, Bool, true, arith, some,
  length, copy_to, length-copy_to, take_all, le→leb,
}
use ridingthecode.Common.Int.{ℤ, negsuc, bytes_word}
use ridingthecode.Common.Text.{Bytes, same_bytes_refl}
use ridingthecode.Common.Fault.{ok}
use ridingthecode.Packet.{int_bytes}
use ridingthecode.Chat.Stream.{Stream, read, read_pipe}
use ridingthecode.Chat.Stream.Receive.{bytes_of, Flows, copy_to_all}
use ridingthecode.Chat.Packets.{type_size, client_join_pkt, write_packet, read_packet}
use ridingthecode.Chat.Packets.RoundTrip.{write_packet-read_packet, size_of}
use ridingthecode.Chat.Channel.{
  Channel, Effect, client_add, join_client, channel_turn, clients_turn, process_add_client,
}
use ridingthecode.Chat.Server.{
  Router, to_channel, close_named, reject_client, pass_on, pass_found, join_channel_name,
  with_socket, add_client,
}
use ridingthecode.Chat.Server.First.{First, First-unique, find_channel-First}
use ridingthecode.Chat.Server.Names.{IsRouter, DistinctRows, close_named-channel_of}

-- what `write_packet` put on a client's stream comes first on it, and its type in one piece
pub record Arrives (type : ℤ) (packet c : Bytes) (cs : Stream) (rest : Bytes) : Type 0 where
  pub sized : length packet ≡ size_of type
  pub flows : Flows (c ∷ cs)
  pub whole_type : type_size ≤ length c
  pub bytes : bytes_of (c ∷ cs) ≡ bytes_of (write_packet type packet) ++ rest

module _ (malloc : ℕ → Bytes) (stack : Bytes) (client_sd : ℤ) (info c : Bytes) (cs : Stream)
    (rest : Bytes) (fresh : (n : ℕ) → length (malloc n) ≡ n)
    (a : Arrives client_join_pkt info c cs rest) where
  pub add_client-pass_on :
      (r : Router)
      → add_client malloc stack client_sd (c ∷ cs) r ≡ ok (pass_on stack client_sd info r)
  unfolding add_client
  add_client-pass_on r = rw p.1 refl
    where
      p :
          (s' : Stream) × (read_packet malloc (negsuc 0) (c ∷ cs)
            ≡ (some info, client_join_pkt, s'))
          × (bytes_of s' ≡ rest)
          × Flows s'
      p =
          write_packet-read_packet malloc (negsuc 0) client_join_pkt info c cs rest fresh
            (inr (inr (inr (inr refl)))) a.sized a.flows a.whole_type a.bytes

  -- A join packet for a channel that was closed, where no two channels have the same name and this one is
  -- not empty, is rejected.
  pub closed_rejects :
      (r : Router)
      → IsRouter r
      → DistinctRows r
      → join_channel_name (with_socket info client_sd) ≢ []
      → add_client malloc stack client_sd
          (c ∷ cs)
          (close_named (join_channel_name (with_socket info client_sd)) r).0
        ≡ ok (reject_client stack client_sd)
  unfolding pass_on pass_found
  closed_rejects r v d real =
      add_client-pass_on (close_named name r).0
      ∙ rw (close_named-channel_of name name r v d real, same_bytes_refl name) refl
    where
      name : Bytes
      name = join_channel_name (with_socket info client_sd)

pub read_pipe_whole :
    (n : ℕ) (p : Bytes) (s : Stream) → length p ≡ suc n → read_pipe (suc n) (p ∷ s) ≡ (some p, s)
unfolding read_pipe read
read_pipe_whole n [] s h = absurd (omega arith)
read_pipe_whole n (x ∷ xs) s h =
    rw
      (
        take_all (suc n) (x ∷ xs) (omega (arith, h)),
        le→leb (length (x ∷ xs)) (suc n) (omega (arith, h)),
      )
      refl

-- a channel that finds a client on its pipe
piped_join :
    (malloc stack : ℕ → Bytes) (info : Bytes) (active : ℤ → Bool) (ch ch' : Channel)
    (effects : List Effect) (pipe : Stream) (streams : ℤ → Stream)
    → length (stack 44) ≡ 44
    → length info ≡ 44
    → join_client (stack 2028) info (record ch { type = client_add }) ≡ ok (ch', effects)
    → channel_turn malloc stack active true ch (int_bytes client_add ∷ info ∷ pipe) streams
      ≡ clients_turn malloc stack active effects ch' pipe streams
unfolding channel_turn process_add_client bytes_word copy_to
piped_join malloc stack info active ch ch' effects pipe streams blank sized e =
    rw
      (
        read_pipe_whole 3 (int_bytes client_add) (info ∷ pipe) refl,
        read_pipe_whole 43 info pipe sized,
        copy_to_all (stack 44) info (sized ∙ sym blank),
        e,
      )
      refl

-- A join packet that arrives from a client, its type in one piece, goes to the first channel of its
-- name, under the descriptor that the router knows. The channel, which finds what the router wrote
-- before what else is on its pipe and lets the client in or rejects it without running out of rows,
-- goes on with its clients. What `malloc` and the stack give has the size asked for.
pub routed_join :
    (malloc stack : ℕ → Bytes) (client_sd : ℤ) (info c : Bytes) (cs : Stream) (rest : Bytes)
    (r : Router) (j : ℕ) (active : ℤ → Bool) (ch ch' : Channel) (effects : List Effect)
    (pipe : Stream) (streams : ℤ → Stream)
    → ((n : ℕ) → length (malloc n) ≡ n)
    → ((n : ℕ) → length (stack n) ≡ n)
    → Arrives client_join_pkt info c cs rest
    → First r.channel_name_list
        (join_channel_name (with_socket info client_sd))
        r.open_channels
        0
        (some j)
    → join_client (stack 2028) (with_socket info client_sd) (record ch { type = client_add })
      ≡ ok (ch', effects)
    → (add_client malloc (stack 2028) client_sd (c ∷ cs) r
        ≡ ok (to_channel j (int_bytes client_add) ∷ to_channel j (with_socket info client_sd) ∷ []))
      × (channel_turn malloc stack active true ch
            (int_bytes client_add ∷ with_socket info client_sd ∷ pipe)
            streams
          ≡ clients_turn malloc stack active effects ch' pipe streams)
unfolding pass_on pass_found
routed_join malloc stack client_sd info c cs rest r j active ch ch' effects pipe streams fresh blank
      a first e =
    (
      add_client-pass_on malloc (stack 2028) client_sd info c cs rest fresh a r
          ∙ ap (λ o. ok (pass_found (stack 2028) client_sd info' o))
              (First-unique r.channel_name_list (join_channel_name info') r.open_channels 0 _
                (some j)
                (find_channel-First r.channel_name_list (join_channel_name info') r.open_channels 0)
                first),
      piped_join malloc stack info' active ch ch' effects pipe streams (blank 44)
          (length-copy_to info 40 (int_bytes client_sd) ∙ a.sized) e,
    )
  where
    info' : Bytes
    info' = with_socket info client_sd
