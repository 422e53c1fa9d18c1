-- ===== src/Sender/Messages.antt =====
-- TCP_RUDP_Packet_Sender/TCP_UDP_Transfer_Assgn2/ServerMode.cpp: every message WM_SOCKET of the server's
-- sockets, with the connection that it reads from. A socket is its number, and none is INVALID_SOCKET.
pub mod Transfer
use ridingthecode.Common.{ℕ, List, [], ◌∷◌, ◌++◌, Option, none, some, map}
use ridingthecode.Common.Text.{Bytes}
use ridingthecode.Common.Fault.{Fault, ok, ◌>>=◌}
use ridingthecode.Sender.Server.{Protocol, SocketInformation, Effect, socket_event}

-- A message with the answer of the call that its handler makes: what `accept` gives, and what the read of
-- a socket gives, none where it fails. `closed` is FD_CLOSE, which has no case.
pub data SocketMessage : Type 0 where
  select_error : ℕ → SocketMessage
  accepted : Option ℕ → SocketMessage
  readable : (Option ℕ → Option Bytes) → SocketMessage
  closed : SocketMessage

-- `server_socket` of the settings, and `SocketInfo`
pub record Server : Type 0 where
  pub server_socket : Option ℕ
  pub info : SocketInformation

-- what the server does, beside what a transfer does: it asks for the messages of a socket, or closes one
pub data Act : Type 0 where
  transfer : Effect → Act
  watched : ℕ → Act
  shut : Option ℕ → Act

-- `accept_data`, which also stores an INVALID_SOCKET
unfoldable pub accept_data : Option ℕ → Server → Server × List Act
accept_data none v = (record v { server_socket = none }, [])
accept_data (some d) v = (record v { server_socket = some d }, watched d ∷ [])

-- `socket_event`, all of it: the number of a closed socket stays where it is
unfoldable pub socket_message : Protocol → SocketMessage → Server → Fault (Server × List Act)
socket_message protocol (select_error code) v = ok (v, shut v.server_socket ∷ [])
socket_message protocol (accepted answer) v = ok (accept_data answer v)
socket_message protocol (readable reads) v = do
  (info, effects) ← socket_event protocol (reads v.server_socket) v.info
  ok (record v { info = info }, map transfer effects)
socket_message protocol closed v = ok (v, [])

-- one message after the other
unfoldable pub socket_messages : Protocol → List SocketMessage → Server → Fault (Server × List Act)
socket_messages protocol [] v = ok (v, [])
socket_messages protocol (m ∷ ms) v = do
  (v', acts) ← socket_message protocol m v
  (v'', more) ← socket_messages protocol ms v'
  ok (v'', acts ++ more)
