-- ===== src/Lib.antt =====
-- libedio24: the client library for the E-DIO24 digital I/O device, its device simulator, and parts
-- of the tools around them.
--
-- The library (src/libedio24.c, include/libedio24.h) builds request packets and reads replies for a
-- client, and answers requests for a simulated device. A packet is a start byte 0xDB, a command, a
-- frame number, a status, a 16-bit count, the data, and a byte that brings the sum of all to 255. A
-- client builds a request (edio24_pkt_create_cmd_*), sends it over TCP, and checks what comes back
-- (edio24_cli_verify_tcp); the device side (edio24_svr_process_tcp) checks the request, and writes a
-- reply (edio24_pkt_create_respond). Discovery and the opening of a session go over UDP. The simulator
-- (utils/edio24sim.c) keeps received bytes in a buffer of 65 bytes, and runs the device side on it
-- from the handlers that libuv calls. The command line client (utils/edio24cli.c) opens a session, sends
-- a packet for each line of a file, and counts the replies; the generator (utils/gencctcmd.c) writes
-- such lines for the devices of a list. Both read files with the helpers of utils/utils.c.
--
-- Files, and what each models:
--   Base            C memory (a capacity and its bytes), int results, comparisons, shared names
--   Protocol        the constants of include/libedio24.h and the head of src/libedio24.c, and the
--                   names that are printed for them (edio24_val2cstr_*)
--   Packet          edio24_pkt_*: Checksum, Frame (what the builders share), Create (the builders),
--                   Verify, Read, Respond; Format and Request are the independent description of
--                   packets and requests that the builders are held against; Request/Written, Builds and
--                   Rejects are what the builders do and refuse
--   Server          Tcp (edio24_svr_process_tcp) and Udp (edio24_svr_process_udp)
--   Client          Tcp (edio24_cli_verify_tcp) and Udp (edio24_cli_verify_udp)
--   Exchange        what one side makes of the other side's bytes: Request, Wrapped (memory writes
--                   whose count does not fit the header), Reply, Session and Connect (UDP),
--                   Commands (the generator's lines in the client), and Conversation (a file of
--                   commands from the client to the simulator and back, and the files that the
--                   generator writes: Switches and Attenuators)
--   Stream          the bytes of a connection as a list, and the packets in it (Frames)
--   Simulator       utils/edio24sim.c: State (edio24svr_t, accept, close, idle_cb), Process
--                   (edio24svr_process_data), Receive (on_tcp_svr_read), Udp (on_udp_srv_read),
--                   Stream (the requests of a connection, over all its reads) and Session, the
--                   handlers as steps from one device state to the next
--   Inbox           what the simulator and the client both do with a buffer of received bytes
--   Cli             utils/edio24cli.c: State (edio24cli_t, idle_cb), Process (edio24cli_process_data),
--                   Receive (on_tcp_cli_read), Command (process_command, send_buffer), Connect (the
--                   first message, on_udp_cli_read, on_tcp_cli_connect) and Stream (the replies of a
--                   connection, over all its reads)
--   Text            C strings in memory, strtol (Strtol) and printf of numbers (Print)
--   Util            utils/utils.c: Hex (parse_hex_buf), Lines (fread_lines, read_file_lines), Strip
--                   (cstr_strip)
--   Tools           Search (pf_bsearch_r of utils/utils.c), and of utils/gencctcmd.c: Command
--                   (parse_values_atten and the output functions, their lines in Command/Text), Boards
--                   (brdlst_*), Column (cstr_line_get_column), Generate (do_setatten, do_setpower,
--                   do_getpower), Lookup (get_*_of_board, do_get_ip_board, do_get_all_board) and
--                   Generator (main)
--   Samples, Tests  concrete data, tests, and the instances of the theorems at them
--
-- Functions keep their names without the prefix edio24_ (pkt_ stays where the rest would be a common
-- word). A pointer that may be NULL is an option. A function returns `none` for undefined behaviour (an
-- access outside a buffer) and for a failed assertion; an int or ssize_t is the ℤ of Base/Result. What
-- pointers show after a call is returned in a record. What rand() returns, what uninitialised locals
-- and fresh memory hold, and whether libuv accepts a connection are arguments. size_t has 64 bits, and
-- keeps its wrap where the code adds to a size that it was given, and in the indices of the binary
-- search; the size of a list of rows grows without it. What is printed for the user is dropped, other than the output of the generator; a read that is made only for printing is kept,
-- since it may leave the buffer.
--
-- Fuel: the loop of the simulator runs on fuel, at most 70000 rounds for each byte it holds and 65543
-- more, because a round takes at least seven bytes or makes the buffer for replies longer, and no
-- reply is longer than 65542 bytes. The push loop of on_tcp_svr_read takes a byte or more a round; the
-- binary search halves its range, of fewer than 2 ^ 63 items, and where it does not end it is `none`
-- too. The client's loop over its replies takes seven bytes or more a
-- round, so as many rounds as it holds bytes and one more are enough; fread_lines takes a character or
-- more a round, and a number of 32 bits is printed in ten rounds at most. All other loops are
-- structural.
--
-- A C string is the list of the bytes from a pointer on, up to the end of its buffer, so that a read
-- behind the terminator of a short line is a read of what is there. fgets leaves the buffer of
-- fread_lines as it was behind the line. What the function that is called for a line writes into that
-- buffer is not carried on to the next line: process_command writes nothing there, and
-- cb_process_brdlst_line changes only the line itself and reads nothing behind it.
--
-- What libuv and TCP do with a connection is a list of pieces: each is handed to the read handler, until
-- that closes the connection. No theorem about a connection fixes how the bytes are cut.
--
-- Not modelled: the start-up of the client and of the simulator, their options and sockets, and what
-- getopt_long makes of the arguments of the generator. A list of 2 ^ 31 boards, where an index
-- changes as an int, is not modelled, and a memory write whose source is its own packet buffer is
-- not either.
pub mod Base
pub mod Protocol
pub mod Packet
pub mod Samples
pub mod Stream
pub mod Inbox
pub mod Server
pub mod Client
pub mod Exchange
pub mod Simulator
pub mod Cli
pub mod Text
pub mod Util
pub mod Tools
