-- ===== src/Lib.antt =====
-- Hybrid-FTP: an FTP server and client whose control connection is TCP and whose data goes over a
-- reliable transfer of its own on UDP.
--
-- The parts and their files:
-- - Codec: src/common/TransferModeCodec.cpp. `encode` and `decode` of the transfer modes S, B and C,
--   on lists of bytes. The loops over an input run on its length as fuel.
-- - Header: src/rdt/CustomUDPHeader.h and .cpp. The header of a packet as a record of numbers, its 15
--   bytes on the wire, the flags and the Internet checksum. The range of each field is in `IsValid`.
-- - Udp: the endpoints and datagrams that src/rdt/UDPSocket.h hands over, as data; Udp.Socket is the
--   object of src/rdt/UDPSocket.cpp, with the results of the system's calls as inputs, what it throws
--   as values, and the descriptors that are open in the process.
-- - Receiver and Sender: src/rdt/SlidingWindow.cpp, `RDTWindowReceiver` and `RDTWindowSender`. Each
--   round of `receiveData` and `sendData` is a function of the object's state and of what the system
--   gives in that round: the answer of the cancellation callback, the results of `sendTo`, what
--   `recvFrom` returns. Numbers of 32 and 16 bits wrap around where the source's do.
-- - StopWait: src/rdt/ReliableTransfer.cpp, `sendPacket` and `receivePacket`, which send one
--   packet at a time. The attempts of `sendPacket` are a list of what the system gives in each.
-- - Double: the arithmetic of `double` in the congestion control, as an interface.
-- - Network: a sender and a receiver in one transfer, over a network that loses, repeats, delays and
--   reorders datagrams, and damages them where the checksum shows it.
--   A step is a round of the receiver, or a round of the sender: it sends, the receiver takes any
--   number of rounds, and then the reply comes.
-- - Rdt: src/rdt/ReliableTransfer.h and .cpp, `RDTSender` and `RDTReceiver`, which hand their settings
--   to the sliding window and send and write whole buffers and files. A file is what the system
--   gives when it is opened; one that is opened to write is a function, from the bytes written to it
--   to those that it holds once it is closed, since the source does not ask whether all were kept.
-- - Programs: src/rdt/FileTransferClient.cpp and src/rdt/FileTransferServer.cpp, which send and
--   receive one file, and the entries src/server/main_server.cpp and src/client/main_client.cpp.
--   `atoi` and `atof` are parameters.
-- - Text and Parser: src/common/CommandParser.cpp, from a command line to its name and argument.
-- - Path: src/common/PathManager.cpp. What a client names is resolved against the root and the
--   current directory; std::filesystem is the interface `FileSystem` on a state of files.
-- - FileHandler: src/common/FileHandler.cpp and src/common/CryptoHash.cpp, on the same interface.
--   Whether the files can be read, and SHA-256, are its fields.
-- - Session: src/server/Session.h and src/server/Session.cpp. The state of a client's session, what
--   `handle_command` does with one line (the replies, the files behind it and the buffers that an
--   `RDTSender` is given), and the loop of `handle_client_thread` over the lines that `read_line`
--   gives. A session is a function of its turns: what `recv` gives, and what the system answers.
-- - EndToEnd: an upload as a whole, from the client's sender through the network and the server's
--   receiver to the file that STOR or APPE writes, and a download, from the server's file to the one
--   that the client writes.
-- - Server: src/server/ServerManager.cpp. The table of clients, and the rounds of `server_run`;
--   Server.Sessions lets the threads of the clients take their steps on the table in any order.
-- - Client: src/client/ClientCLI.cpp, and the reading of replies in src/client/main_client.cpp. The
--   state of the command line and one turn of `run`, as a function of what the server answers.
-- - Base and Examples: shared helpers; the theorems at concrete inputs and runs of the code.
--
-- A session uses Parser on each line and Path for the storage; the listings and the downloads go
-- through Codec to a sender, the uploads from a receiver through Codec to FileHandler. The sliding
-- window uses Header for each packet. The client uses Codec as the server does.
--
-- Bounds and fuel: a transfer has fewer than 2 ^ 32 segments and an MSS that fits the receiver's
-- buffer. The loop that cuts the data into segments runs on the length of the data as fuel, which is
-- enough for any positive MSS. The decoder's fuel is the length of its input. The search of STOU for
-- a free name takes a number of rounds, `unique_rounds`; one more than the number of any free name
-- is enough. The loop over the lines of a reply has the number of lines as fuel.
--
-- Not modelled: the printed log and the console, the calls of sockets, threads and signals, whose
-- results are inputs, and the signal handler of the client, which sets the flag that its turns take
-- as an input. The sockets of the two file programs are taken to be created and bound, and the time
-- that a call takes is not counted: a timeout is an input of its round. Threads share only the
-- table of clients and the file system; a session is modelled as if no other changed its files.
-- Paths are those of POSIX. The order that `std::sort` gives equal elements does not matter, since
-- the names in a directory differ.
pub mod Base
pub mod Codec
pub mod Header
pub mod Udp
pub mod Double
pub mod Receiver
pub mod Sender
pub mod StopWait
pub mod Network
pub mod Rdt
pub mod Programs
pub mod Text
pub mod Parser
pub mod Path
pub mod FileHandler
pub mod Session
pub mod EndToEnd
pub mod Server
pub mod Client
pub mod Examples
