-- ===== src/Lib.antt =====
-- SwiftLink sends a file over UDP: a sender cuts it into chunks and retransmits them under a sliding
-- window, a receiver writes them where they belong and publishes the file when its SHA-256 agrees.
--
-- The parts, each with the code that it models (paths from the repository's root):
--   Common      the Boolean tests, list operations, bit laws and signed numbers that the other parts
--               share
--   Protocol    include/swiftlink/protocol and src/protocol: Packet (the header and its types), Crc
--               (both checksums), Wire (the big-endian primitives), Serializer (serialize and
--               deserialize), Status (the codes of ERROR packets)
--   Io          include/swiftlink/io and src/io: File, over the system calls as an interface
--   Crypto      src/crypto/sha256.cpp: the hasher with its block buffer
--   Transfer    include/swiftlink/transfer and src/transfer: ReceiverWindow and SenderWindow
--               (window.hpp, window.cpp), Filename (filename.cpp), Chunks (chunk_count and the chunk
--               arithmetic of send_file), Stats (the errors and counters), Session
--               (receiver_session.cpp), Receiver (receiver.hpp, receiver.cpp), Sender (sender.hpp,
--               sender.cpp) with Sender.Exchange (exchange_control) and Sender.Send (hash_file,
--               send_file); Delivery puts the sender and a session together
--   Net         include/swiftlink/net and src/net/udp_socket.cpp: UdpSocket, over the system calls
--   Cli         src/client/client_main.cpp (Client) and src/server/server_main.cpp (Server): the
--               command lines
--   Proxy       tools/delay_proxy.cpp: the queue, the impairments and the main loop of the proxy that
--               delays, drops, reorders, repeats and corrupts the datagrams between the two; Random
--               (the generators of its decisions) and Options (its command line)
--   Server      include/swiftlink/server and src/server/epoll_server.cpp: Config, Replies (the key of
--               a session and the datagrams that the server sends), Table (the map of sessions and
--               the sweep), Loop (admission, a datagram, the events of the epoll loop)
-- The sender reads chunks, sends them as Transfer.SenderWindow allows, keeps each packet in a slot
-- of its window, and sends it again when SenderWindow.expire hands its number back. The server
-- finds the session of a datagram by address, port and session id, or opens one. A datagram is
-- decoded by Protocol.Serializer and handed to Transfer.Session, which asks Transfer.ReceiverWindow
-- whether a chunk is new, Transfer.Filename for a name that is safe, and Crypto.Sha256 for the
-- digest of what was written.
--
-- The model. A byte is a number below 256 and a buffer a list of bytes. A field of w bits is a
-- number, and arithmetic on it is taken modulo 2 ^ w where the code computes in that width. An
-- operation that changes an object takes the object and gives the changed one, with what it
-- returns; each handler of ReceiverSession is one function of the session, the disk and the packet,
-- cut at its calls of the file system. The file and the calls of rename and unlink are the
-- interface Transfer.Session.Storage, a parameter of the session. A cast to a signed 64-bit type
-- (off_t in file.cpp, the milliseconds of --rto-ms) is Common.Signed.signed64; the sender takes the
-- timeout as a number that is not negative. The priority queue of timers is a
-- list in the order of the deadlines, and a time point is a number. The sender's socket, clock,
-- file and simulated loss are the interface Transfer.Sender.Network over a state of the world that
-- each call hands on; a Link holds that state beside the counters and the datagrams that were sent
-- and heard. What the server's descriptors and clock give stands in its events. `max_retries` is a
-- number that is not negative.
--
-- Loops run on fuel where the code's loop is not over a list. Sha256.absorb takes 64 bytes a round
-- and has as many rounds as there are bytes; ReceiverWindow.slide clears a slot each round and has
-- capacity + 1 of them; SenderWindow.advance has one for each number in flight, and one to stop;
-- expire_loop has one for each timer, and one to stop; Session.hash_file has one for each block of
-- 65536 bytes, one for the rest, and one to stop. The loops of File run on the rounds they are
-- given, since the system may interrupt a call any number of times. The wait of exchange_control
-- has `fuel` rounds an attempt, and more than the nanoseconds of `rto` are enough under a clock
-- that goes on (Sender.Exchange.Ends); Send.Loop.fill has one round for each chunk that is left,
-- Send.Loop.hash_file one for each block as above; the main loop of send_file runs on the rounds it
-- is given, and ends with `out_of_rounds` when they are used up.
--
-- Transfer.Delivery states what the two sides come to together. What arrives is any list of datagrams
-- that the sender put out, and of damaged ones that do not decode; the disk is any Storage with the laws
-- IsDisk, on which a file has a size and a byte at each place. The generation counters of the sender's
-- window are numbers modulo 2 ^ 64: where a theorem needs that none wraps, the rounds of the main loop are
-- bounded by Send.Acked.cost, two for each chunk and, in a round, two for each slot and one.
--
-- Not modelled: the setting up of the server's descriptors, which is system calls; the reports; and
-- doubles, which are left out where only reports read them (elapsed time, throughput) and are the
-- interface Proxy.Random.Reals in the delay proxy, beside its random engine.
pub mod Common
pub mod Protocol
pub mod Transfer
pub mod Crypto
pub mod Cli
pub mod Io
pub mod Net
pub mod Proxy
pub mod Server
