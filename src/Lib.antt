-- ===== src/Lib.antt =====
-- A model of sled-server, the program that drives a linear sled over CANopen and serves its
-- position over the RTC3D protocol.
--
-- libsled. The program has five state machines, made by the macros of
-- libsled/machines/machine_body.h (Machine): the interface machine (libsled/machines/mch_intf.cc,
-- in Sled), which opens and closes the CAN interface; the network machine (mch_net.cc, in Net),
-- which brings the drive to the operational state and configures it; the device machine
-- (mch_ds.cc, in Ds) and the motion profile machine (mch_mp.cc, in Mp), which follow the drive's
-- status word; and the SDO machine (mch_sdo.cc, in Sdo), through which the others send their
-- requests, one at a time. Each calls the one below it by the callbacks of libsled/sled.cc. The
-- states nest as the calls do: a `Sled` holds a `Network`, that a `Drive`, that a `Motion`, and
-- that a `Channel`, which is the SDO machine with the part of intf_t that it drives.
--   Can       the messages of libsled/interface.cc
--   Sdo       the queue of requests; Response the answers to them
--   Mp, Ds, Net, Sled   the machines, from the lowest; Sled also has the callbacks of
--             libsled/sled.cc, Sled.Loop what the event loop delivers, and Sled.Interface the set-up
--   Profile   the local copies of the motion profiles (libsled/sled_profile.cc)
--   Upload    how their changes are sent to the drive, one profile after the other (the same file)
--   Api       what libsled offers to a program (libsled/sled.h, sled_profile_execute): a `Device` is
--             the whole of sled_t; Api.Creation is sled_create
-- A handler is a function into an Outcome: it returns, it ends the process by `exit`, it overflows,
-- or it runs into a fault, which stands for a failed assertion and for undefined behaviour. To
-- overflow is undefined behaviour too: the conversion of a double to an int32_t that cannot hold it,
-- in the upload of a profile. Any client can send such a number, so this ending is kept apart: what
-- `Ensures` says of a handler rules it out, what `Allows` says leaves it open.
--
-- librtc3d. Rtc3d is the framing of librtc3d/rtc3d.cc: bytes become packets, and command packets
-- reach the command handler, which is a parameter; Rtc3d.Dataframe is the frame of
-- librtc3d/rtc3d_dataframe.cc that carries a position. Memory is modelled with its size and with
-- cells that may not have been written; a size has 32 bits, and the number of missing bytes 8, as
-- in the source.
--
-- Tcp is the map of connections of librtc3d/server.cc, below it, and Tcp.Setup its listening socket;
-- Rtc3d.Setup is the server that is made of both.
--
-- The program (src). Parser is the grammar of the commands (src/parser.yac), as a function on the
-- tokens that Parser.Lexer makes by the rules of src/scanner.lex; Parser.Grammar has the productions
-- themselves as a data type. Server is src/server.cc: a `Server` holds the `Device` of libsled, the
-- connected clients, those that frames are streamed to, the translation of profile numbers, and what
-- has been sent. Its command handler is what Rtc3d takes as a parameter (Server.host_of).
-- Server.Ticks is the timer, Server.Setup the start. Main is src/main.cc: what the program asks of the
-- system before its event loop runs, and in which order.
--
-- Program puts these together: the state of the TCP server, the contexts of librtc3d for its
-- connections, and the `Server` with its `Device`. Its steps are the callbacks of the event loop: a new
-- connection, a descriptor that can be read, an event of a write buffer, the timer, and the events of
-- libsled. A connection is a pointer in the source and the number of its descriptor in Program.id_of.
-- A handler that goes through a null pointer marks the state as crashed, and the callback then ends in a fault.
-- Program.Shutdown is the shutdown, with what it gives back to the system and in which order.
--
-- Bounds. The handlers of the interface machine and of the SDO machine call themselves again from
-- their entry actions; the model gives each event two rounds, and more make no difference. The
-- upload of profiles calls itself for the next profile; one round more than there are profiles
-- with changes pending is enough. All else is by recursion on lists. A double is its bit pattern,
-- and the processor's operations on it are a parameter (Common.Int.Fpu), as are the answers of the
-- CAN driver (Sled.Driver, Sled.Loop.Reading) and the sizes that malloc grants (Rtc3d.Host).
--
-- The loop that shuts the TCP server down has fuel; as much as there are connections is enough
-- where every entry of the map is one. The scanner has as many steps as there are
-- bytes, which is enough (Parser.Scanning).
--
-- Parameters. The command that a text is parsed into holds what the stack held before. What bison
-- does behind an error, the conversions of the C library, and the answers of sockets and libevent
-- are parameters too (Parser.Tools, Server.Numerics, Tcp.Accepting, Tcp.Received).
--
-- Not modelled: what the system, libevent, the sockets and the CAN driver do, of which the model has the
-- answers only (Main.System, Tcp.Setup.Sockets); the redirection of the standard streams to the log, the
-- texts of the log and of the help, the Windows build, and the build with DIRTY_SINUSOID. What a channel
-- has sent is what was handed to the CAN driver: nobody reads whether it took the message. A `new`
-- that is refused and not caught (in intf_create, for a queued request and for a connection of the TCP
-- server) ends the process, and is left out.
pub mod Common
pub mod Machine
pub mod Can
pub mod Sdo
pub mod Mp
pub mod Ds
pub mod Profile
pub mod Net
pub mod Response
pub mod Rtc3d
pub mod Tcp
pub mod Server
pub mod Sled
pub mod Api
pub mod Parser
pub mod Upload
pub mod Main
pub mod Program
pub mod Scenarios
