-- ===== src/Lib.antt =====
-- The network emulator of 7005_NVirt with its dummy client, the chat server and client of LinuxAssign3, the
-- transfers of TCP_RUDP_Packet_Sender, the drawing program of Win32_Shaper, the race of ExtremeRacing, the
-- terminal of serialTerm and the look-ups of SimpleTCPIPResolver, as executable models with their properties.
--
-- The emulator, 7005_NVirt/NVirt, receives packets on a UDP socket, keeps them in a circular buffer of
-- bytes, and sends each one on to the address it names, unless its noise controller drops it. Commands
-- typed at its terminal set the loss, the delay and the log file. The client, 7005_NVirt/Client, makes a
-- transfer of dummy packets for each /send, sends it through the emulator by a sliding window, and
-- acknowledges the data packets that it receives.
--
-- The chat server, LinuxAssign3/server, has one thread for its terminal, a router that takes clients, and one
-- thread for each channel. The input thread writes commands to a pipe of the router, and the router writes
-- to a pipe of each channel: a client's join packet with its socket, or a close. A channel reads its
-- clients' packets and writes each message to the other members. The client, LinuxAssign3/client, has one
-- thread for its terminal, which writes packets to a pipe, and a router that stands between this pipe and the
-- server. Both have the same utils.cpp and packets.h.
--
-- TCP_RUDP_Packet_Sender is a window that either sends a file or filler, behind a header with its size, over
-- TCP or over UDP with an answer to each datagram, or receives them, one event of its socket at a time.
--
-- Win32_Shaper draws squares and circles: the main window keeps them in four vectors, and its menu and a
-- paint box select the pen, the background, the shape and the mode. ExtremeRacing has five threads race to a
-- line, with or without a critical section around the announcement of the winner. serialTerm writes what is
-- typed to a serial port, and a thread draws what comes from it. SimpleTCPIPResolver looks up addresses, hosts,
-- services and ports in a window.
--
-- Files and the code they model:
--   Common: lists, block copies, integers, byte strings, decimal input and faults, which the others share
--   Packet: packet_hdr and the constants of 7005_NVirt/NVirt/include/definitions.h and the client's copy
--   Packet/Layout: the memory of a packet
--   Router/Ring: 7005_NVirt/NVirt/src/CircularBuffer.cpp (new_buffer, write, read); children Bounds (invariant),
--     Window and Contents (the bytes stored as a list)
--   Router/Noise: 7005_NVirt/NVirt/src/NoiseController.cpp (check_command, set_delay, set_ploss, set_descriptor,
--     packet_drop_check); children Commands and Loss
--   Router/Relay: 7005_NVirt/NVirt/src/Controller.cpp (receive_data is recieve_data, transmit_data, notify; round is
--     one turn of execute); children Queue (the buffer as a queue of packets), Receive, Transmit, Turns, Rounds
--   Client/Transfer: 7005_NVirt/Client/src/TransferController.cpp (new_transfer, read_next_packet, verify_ack,
--     create_eot_packet, write_packet_buffer, grab_ip); children Packets, Window, Next, Start
--   Client/Node: 7005_NVirt/Client/src/CommandController.cpp (check_command) and 7005_NVirt/Client/src/Controller.cpp
--     (check_packet, send_ack, write_udp_socket, transmit_data; check_timer is the end of a turn);
--     children Acks, Delivery, Exchange, Completion, Commands
--   Client/Socket: recieve_data of 7005_NVirt/Client/src/Controller.cpp (receive_data); child Arrivals
--   Client/Loop: one turn of execute of 7005_NVirt/Client/src/Controller.cpp; child Turns
--   Chat/Stream: what read gives, rcv_variable and read_pipe of LinuxAssign3/server/src/utils.cpp; child Receive
--   Chat/Packets: LinuxAssign3/server/src/packets.h and write_packet, read_packet and the functions for each packet
--     of utils.cpp, as tables of field sizes; children Fields, RoundTrip, Desync
--   Chat/Channel: LinuxAssign3/server/src/ChannelSystem.cpp (channel_turn is a turn of ChannelManager); children
--     Broadcast, Quit, Rows and Members (the sizes of the rows), Names (no name twice) and Joining
--   Chat/Scan: sscanf with %s as the input threads use it
--   Chat/Server: LinuxAssign3/server/src/ServerSystemRouter.cpp (main_turn is a turn of main; add_client, add_channel,
--     channel_close, display_users, close_server); Chat/Server/Console: its InputManager; children First (the
--     search for a name), Names (which channel a name finds), Routing (a join through the router to the channel), Commands (/create)
--   Chat/Client: LinuxAssign3/client/src/SystemRouter.cpp (join_channel, quit_channel, check_input_pipes,
--     check_output_sockets); Chat/Client/Console: InputManager of LinuxAssign3/client/src/InputController.cpp;
--     children Asking (the pipe), Judging and Answers (what the server answers to a join)
--   Sender/Header: the header of a transfer, printed by ClientMode.cpp and read by grab_header_info of ServerMode.cpp
--     in TCP_RUDP_Packet_Sender/TCP_UDP_Transfer_Assgn2; child RoundTrip
--   Sender/Server: ServerMode.cpp there (process_header, grab_header, init_receive for init_tcp_receive and
--     init_udp_receive, the case FD_READ of socket_event); child Receiving
--   Sender/Messages: the rest of socket_event, and accept_data; child Transfer. Sender/Filler: a whole transfer
--   Sender/Client: ClientMode.cpp there (init_transfer as file_packets and filler_packets, tcp_deliver_packets,
--     udp_deliver_packets, receive_acknowledge); child Delivery
--   Shaper/Ids, Shaper/State: resource.h and stdafx.h of Win32_Shaper/win32Project, and what Windows keeps for it
--   Shaper/Scroll, Shaper/Clipboard: utility.cpp there; Shaper/Drawing: drawing.cpp; Shaper/Menu: menu.cpp
--     (children Cases, Sync); Shaper/Window: procs.cpp, intialize.cpp and topMenu
--   Shaper/Canvas, Shaper/Refinement, Shaper/Selecting, Shaper/Outcomes, Shaper/Events:
--       the vectors as one list of shapes, and each event on it
--   Shaper/Marks, Shaper/Runs, Shaper/Painting: the check marks, whole runs, and where a shape appears
--   Race: ExtremeRacing/ExtremeRacing/Race.cpp (start_car is a step of the thread startCar); children
--       Section, Calm, Winner
--   Serial: serialTerm/serialTerm/serialApp.cpp and serialPhys.cpp; children Session (ports and threads), Leak, Cursor
--   Resolver: SimpleTCPIPResolver/Assignment1Term4_v2/utility.cpp, and Main_OnCommand; child Services
--   The modules named Tests hold runs and uses of the theorems at concrete data.
--
-- In the chat program a stream is the list of the pieces in which its bytes arrive, a packet is its memory,
-- and a turn of a loop returns the new state with what was written, in order. A channel knows only its own
-- rows of the static arrays, and a write past them is a fault, as is a descriptor -1 given to FD_ISSET. What
-- malloc and the stack hold, the sockets that accept and connect give and what select reports are
-- arguments. Threads share nothing but pipes and are modelled each on its own.
--
-- State is passed explicitly. What comes from outside is an argument: the line typed, rand(), clock(), the
-- datagrams that arrive, whether a file opens, gethostbyname and sendto as the record Network, the
-- interfaces that getifaddrs lists, and what an uninitialised variable holds. Undefined behaviour is a
-- value: fault in the client, overrun and corrupted in the emulator, after which nothing is modelled; an
-- uncaught exception is aborted. size_t wraps at 2 ^ 64. The products and sums of
-- sizes of the client's int wrap around at 2 ^ 32 as two's complement; what is counted by one is an exact
-- integer. data_loss, a double, only holds whole numbers.
--
-- Bounds: BUFLEN is 204856 bytes, which holds 97 packets of 2104 bytes, and a packet is accepted while more
-- than P_SIZE bytes are free. Loops are structural: on the datagrams that arrive, on the rounds left, on the
-- inputs of the turns. Fuel has decimal, which prints a number n with fuel n + 1, more than
-- its digits; the theorems on commands use that what is read back is n. The loop of rcv_variable and that of
-- the type in read_packet have one round more than bytes are wanted, and every round but the last takes one.
--
-- Not modelled: socket creation and select, terminal output, the log of the emulator's client, thread start-up
-- (main.cpp of both, dispatch_thread), the windows, dialogs and clock of TCP_RUDP_Packet_Sender, the controls
-- and titles of SimpleTCPIPResolver, and the start windows of ExtremeRacing.
pub mod Common
pub mod Packet
pub mod Router
pub mod Client
pub mod Chat
pub mod Sender
pub mod Shaper
pub mod Race
pub mod Resolver
pub mod Serial
