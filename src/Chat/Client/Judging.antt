-- ===== src/Chat/Client/Judging.antt =====
-- What the client makes of the packet of an answer: a refusal, or an acceptance with its rows.
use ridingthecode.Common.{
  ℕ, zero, suc, ◌*◌, ◌≤◌, ◌<◌, ◌≡◌, ◌⊎◌, inl, inr, refl, sym, ap, ◌∙◌, List, [], ◌∷◌, ◌++◌, arith,
  some, length, take, drop, copy_to, length-append, take-length-append, le→leb, length-drop, get_or,
}
use ridingthecode.Common.Int.{ℤ, pos, bytes_word}
use ridingthecode.Common.Text.{Bytes, drop-front}
use ridingthecode.Common.Fault.{ok}
use ridingthecode.Chat.Packets.{
  max_clients, max_user_name, server_msg_pkt, channel_info_pkt, connection_rejected,
}
use ridingthecode.Chat.Packets.RoundTrip.{word_back, size_of}
use ridingthecode.Chat.Channel.{Channel, rejection, acceptance}
use ridingthecode.Chat.Channel.Rows.{IsChannel, AllLength}
use ridingthecode.Chat.Client.{
  Client, info_code, info_clients, user_rows, channel_rows, setup_channel_variables, joined_on,
  answered,
}

-- the code in front of what is written
info_code-rejection :
    (n : ℕ) (stack : Bytes)
    → 4 ≤ length stack
    → info_code (take (suc (suc (suc (suc n)))) (rejection stack)) ≡ connection_rejected
unfolding copy_to bytes_word
info_code-rejection n (x ∷ y ∷ z ∷ w ∷ stack) h = refl
info_code-rejection n [] h = absurd (omega arith)
info_code-rejection n (x ∷ []) h = absurd (omega arith)
info_code-rejection n (x ∷ y ∷ []) h = absurd (omega arith)
info_code-rejection n (x ∷ y ∷ z ∷ []) h = absurd (omega arith)

pub refused :
    (type : ℤ) (stack : Bytes) (sd : ℤ) (c : Client)
    → (type ≡ channel_info_pkt) ⊎ (type ≡ server_msg_pkt)
    → 4 ≤ length stack
    → answered sd (some (take (size_of type) (rejection stack))) c ≡ ok c
unfolding answered
refused type stack sd c kind h = rw (code kind) refl
  where
    code :
        (type ≡ channel_info_pkt) ⊎ (type ≡ server_msg_pkt)
        → info_code (take (size_of type) (rejection stack)) ≡ connection_rejected
    code (inl e) =
        ap (λ t. info_code (take (size_of t) (rejection stack))) e
        ∙ info_code-rejection 2024 stack h
    code (inr e) =
        ap (λ t. info_code (take (size_of t) (rejection stack))) e
        ∙ info_code-rejection 1060 stack h

-- the rows of a packet that has them
users_there :
    (n : ℕ) (packet : Bytes)
    → max_user_name * n ≤ length packet
    → (users : List Bytes) × (length users ≡ n) × (user_rows n packet ≡ ok users)
unfolding user_rows
users_there zero packet h = ([], refl, refl)
users_there (suc n) packet h =
    let r =
      users_there n (drop max_user_name packet)
        (omega (arith, h, length-drop max_user_name packet)) in
    (
      take max_user_name packet ∷ r.0,
      ap suc r.1,
      rw (r.2, le→leb max_user_name (length packet) (omega (arith, h))) refl,
    )

pub accepted :
    (stack : Bytes) (ch : Channel) (n : ℕ) (sd : ℤ) (c : Client)
    → length ch.channel_name ≡ 20
    → n ≤ max_clients
    → 2000 ≤ length (get_or ch.client_names 0 [] ++ drop 48 stack)
    → (users : List Bytes) × (length users ≡ n)
      × (answered sd (some (acceptance stack ch n)) c
          ≡ ok (joined_on sd (record c { channel_name = ch.channel_name; channel_users = users })))
unfolding answered setup_channel_variables channel_rows bytes_word
accepted stack ch n sd c title room long =
    let r =
      users_there n (get_or ch.client_names 0 [] ++ drop 48 stack) (omega (arith, long, room)) in
    (r.0, r.1, rw (told, behind, r.2, name) refl)
  where
    rows : Bytes
    rows = get_or ch.client_names 0 [] ++ drop 48 stack

    told :
        channel_rows (info_clients (acceptance stack ch n)) (drop 28 (acceptance stack ch n))
        ≡ channel_rows (pos n) (drop 20 (ch.channel_name ++ rows))
    told =
        ap (λ k. channel_rows k (drop 20 (ch.channel_name ++ rows)))
          (word_back (pos n) (omega (arith, room)))

    behind : channel_rows (pos n) (drop 20 (ch.channel_name ++ rows)) ≡ user_rows n rows
    behind = rw (drop-front 20 ch.channel_name rows title, le→leb n max_clients room) refl

    name : take 20 (ch.channel_name ++ rows) ≡ ch.channel_name
    name =
        ap (λ k. take k (ch.channel_name ++ rows)) (sym title)
        ∙ take-length-append ch.channel_name rows

first_row :
    (names : List Bytes) → AllLength 20 names → 0 < length names → length (get_or names 0 []) ≡ 20
first_row [] h l = absurd (omega arith)
first_row (x ∷ xs) h l = h.0

pub rows_there :
    (stack : Bytes) (ch : Channel)
    → IsChannel ch
    → length stack ≡ 2028
    → length (get_or ch.client_names 0 [] ++ drop 48 stack) ≡ 2000
rows_there stack ch v sized =
    length-append (get_or ch.client_names 0 []) (drop 48 stack)
    ∙ omega (
      arith,
      first_row ch.client_names v.rows_fit (omega (arith, v.names)),
      length-drop 48 stack,
      sized,
    )
