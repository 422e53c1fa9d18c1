-- ===== src/Sender/Messages/Transfer.antt =====
-- What a transfer depends on: the reads of the connection that was accepted last.
use ridingthecode.Common.{
  ℕ, ◌+◌, ◌≡◌, ◌≢◌, refl, ap, ◌∙◌, List, [], ◌∷◌, ◌++◌, Option, none, some, map, length, true,
}
use ridingthecode.Common.Int.{pos}
use ridingthecode.Common.Text.{Bytes}
use ridingthecode.Common.Fault.{Fault, ok, fault, ◌>>=◌}
use ridingthecode.Sender.Server.{
  Protocol, tcp, SocketInformation, Effect, new_information, socket_event, socket_events, file_mode,
}
use ridingthecode.Sender.Server.Receiving.{sum, NoneEmpty, filler_received}
use ridingthecode.Sender.Messages.{
  SocketMessage, select_error, accepted, readable, closed, Server, Act, transfer, watched, shut,
  accept_data, socket_message, socket_messages,
}

-- what the reads of the messages give, each of the socket that the last `accept` before it gave
abbrev pub delivered : Option ℕ → List SocketMessage → List (Option Bytes)
delivered socket [] = []
delivered socket (select_error code ∷ ms) = delivered socket ms
delivered socket (accepted answer ∷ ms) = delivered answer ms
delivered socket (readable reads ∷ ms) = reads socket ∷ delivered socket ms
delivered socket (closed ∷ ms) = delivered socket ms

-- the acts that belong to a transfer
abbrev pub transfers : List Act → List Effect
transfers [] = []
transfers (transfer e ∷ acts) = e ∷ transfers acts
transfers (watched d ∷ acts) = transfers acts
transfers (shut d ∷ acts) = transfers acts

-- what a transfer sees of the server
abbrev pub seen : Fault (Server × List Act) → Fault (SocketInformation × List Effect)
seen m = m >>= (λ r. ok (r.0.info, transfers r.1))

transfers_after :
    (es : List Effect) (acts : List Act)
    → transfers (map transfer es ++ acts) ≡ es ++ transfers acts
transfers_after [] acts = refl
transfers_after (e ∷ es) acts = ap (λ l. e ∷ l) (transfers_after es acts)

abbrev after : List Act → Fault (Server × List Act) → Fault (Server × List Act)
after acts m = m >>= (λ r. ok (r.0, acts ++ r.1))

-- Acts that belong to no transfer are not seen.
unseen :
    (acts : List Act)
    → ((l : List Act) → transfers (acts ++ l) ≡ transfers l)
    → (m : Fault (Server × List Act)) → seen (after acts m) ≡ seen m
unseen acts h (ok r) = ap (λ l. ok (r.0.info, l)) (h r.1)
unseen acts h fault = refl

seen_transfers :
    (es : List Effect) (m : Fault (Server × List Act))
    → seen (after (map transfer es) m) ≡ (seen m >>= (λ r. ok (r.0, es ++ r.1)))
seen_transfers es (ok r) = ap (λ l. ok (r.0.info, l)) (transfers_after es r.1)
seen_transfers es fault = refl

-- what a read leaves
abbrev read_in : Server → SocketInformation × List Effect → Fault (Server × List Act)
read_in v r = ok (record v { info = r.0 }, map transfer r.1)

-- A read is what it is without the other messages, where what follows it is.
seen_read :
    (v : Server) (rest : Server → Fault (Server × List Act))
    (k : SocketInformation → Fault (SocketInformation × List Effect))
    → ((i : SocketInformation) → seen (rest (record v { info = i })) ≡ k i)
    → (m : Fault (SocketInformation × List Effect))
    → seen (m >>= read_in v >>= (λ r. after r.1 (rest r.0)))
      ≡ (m >>= (λ r. k r.0 >>= (λ r'. ok (r'.0, r.1 ++ r'.1))))
seen_read v rest k h fault = refl
seen_read v rest k h (ok r) =
    seen_transfers r.1 (rest (record v { info = r.0 }))
    ∙ let with_effects : SocketInformation × List Effect → Fault (SocketInformation × List Effect) =
        λ r'. ok (r'.0, r.1 ++ r'.1) in
      ap (λ m. m >>= with_effects) (h r.0)

-- Over any messages of the server's sockets, what becomes of the transfer, its effects in their order and
-- whether there is a fault, is what its events FD_READ alone make of it, each with what the socket that was
-- accepted last before it gives: a new connection, an error and a closing leave the transfer as it is.
pub transfer_by_reads :
    (protocol : Protocol) (ms : List SocketMessage) (v : Server)
    → seen (socket_messages protocol ms v)
      ≡ socket_events protocol (delivered v.server_socket ms) v.info
unfolding socket_messages socket_message socket_events accept_data
transfer_by_reads protocol [] v = refl
transfer_by_reads protocol (select_error code ∷ ms) v =
    unseen (shut v.server_socket ∷ []) (λ l. refl) (socket_messages protocol ms v)
    ∙ transfer_by_reads protocol ms v
transfer_by_reads protocol (accepted none ∷ ms) v =
    let v' = record v { server_socket = none } in
    unseen [] (λ l. refl) (socket_messages protocol ms v') ∙ transfer_by_reads protocol ms v'
transfer_by_reads protocol (accepted (some d) ∷ ms) v =
    let v' = record v { server_socket = some d } in
    unseen (watched d ∷ []) (λ l. refl) (socket_messages protocol ms v')
    ∙ transfer_by_reads protocol ms v'
transfer_by_reads protocol (readable reads ∷ ms) v =
    seen_read v (socket_messages protocol ms)
      (socket_events protocol (delivered v.server_socket ms))
      (λ i. transfer_by_reads protocol ms (record v { info = i }))
      (socket_event protocol (reads v.server_socket) v.info)
transfer_by_reads protocol (closed ∷ ms) v =
    unseen [] (λ l. refl) (socket_messages protocol ms v) ∙ transfer_by_reads protocol ms v

-- Once its header has come, a transfer over TCP that is not a file ends, with nothing done, with the piece
-- that completes the size of its header, whatever the server's sockets report in between, as long as what
-- the reads of the socket that was accepted last give is that size in pieces, none of them empty but maybe
-- the first. The server then waits for a new header.
pub filler_amid :
    (ms : List SocketMessage) (p : Bytes) (ps : List Bytes) (v : Server)
    → delivered v.server_socket ms ≡ map some (p ∷ ps)
    → v.info.header_received ≡ true
    → v.info.header.mode ≢ file_mode
    → NoneEmpty ps
    → v.info.header.total_size ≡ pos (v.info.total_recv + (length p + sum ps))
    → seen (socket_messages tcp ms v) ≡ ok (new_information v.info.buffer, [])
filler_amid ms p ps v d h k l e =
    transfer_by_reads tcp ms v
    ∙ ap (λ l. socket_events tcp l v.info) d
    ∙ filler_received p ps v.info h k l e
