-- ===== src/Lib.antt =====
-- The remote debug server for Intel FPGAs: a TCP/IP server that carries packets between a debug
-- client and the streaming debug IP of an FPGA, over memory-mapped registers.
--
-- The program and the files that model it (paths from the repository's root):
-- - Packet: streaming/src/intel_st_debug_if_packet.c, the guard band and the headers on the wire.
--   Packet/Layout has its theorems.
-- - CircleBuff: streaming/inc/intel_st_debug_if_st_dbg_ip_allocator.h, the ring allocator; its
--   invariant in CircleBuff/Bounds, the disjointness of blocks in CircleBuff/Regions.
-- - Driver: streaming/src/intel_st_debug_if_st_dbg_ip_driver.c. Driver holds the globals, Driver/Reg the
--   register offsets, Driver/Slots get_h2t_buffer and get_mgmt_buffer, Driver/Data the descriptor words
--   (push_h2t_data, get_t2h_data and their MGMT twins), Driver/Control initialisation and parameters,
--   Driver/Copy the copies memcpy64_fpga2host and memcpy64_host2fpga.
-- - Common: zero_mem, the handle messages and get_random_id of streaming/src/intel_st_debug_if_common.c.
-- - Sockets: streaming/src/intel_st_debug_if_sockets.c, the loops over send and recv, the options, and the
--   errors; Sockets/Recv, Sockets/Send and Sockets/UntilNull are about the three loops.
-- - Server: streaming/src/intel_st_debug_if_server.c. Server holds the connection, Server/Message the texts
--   of streaming/src/intel_st_debug_if_constants.c, Server/H2t, Server/T2h and Server/Mgmt the packet
--   handlers with the two socket functions that copy to and from the hardware, Server/Params and
--   Server/Control the commands, Server/Connect the handshake (its theorems in Server/Connect/Handle
--   and Server/Connect/Order), Server/Loop the event loop, server_main
--   and server_terminate, Server/Wrap buff_len_to_wrap_boundary. Server/H2t/Delivery follows a payload
--   from the socket into the ring, and Server/T2h/Process one from the ring to the socket. Server/Framed
--   is the invariant of the buffers, with the step relation of Server/Framed/Reachable, and Server/Keeps
--   the rules by which it goes through a run.
-- - StreamDbg: streaming/src/intel_st_debug_if_stream_dbg.c, the design information and the callbacks that
--   tie the server to the driver.
-- - Interfaces: protodrv_api/common/src/intel_fpga_api_cmn_inf.c, the table of interfaces, and the
--   interrupt functions of protodrv_api/uio/src/intel_fpga_api_uio.c.
-- - Uio: protodrv_api/uio. Uio/Access is inc/intel_fpga_api_uio.h, the register accesses; the rest is
--   src/intel_fpga_platform_api_uio.c: Uio/Globals its state and the system calls, Uio/Args the options,
--   Uio/Sysfs the size that the kernel tells, Uio/Platform fpga_platform_init and
--   fpga_platform_cleanup, Uio/Thread the interrupt thread beside the program. Uio/Stubs are the memory
--   functions of src/intel_fpga_api_uio.c.
-- - Messages: protodrv_api/common/src/intel_fpga_api_cmn_msg.c, messages and exceptions.
-- - Main: main.cpp, the options, StreamingDebug, run_etherlink, the handler of SIGINT, and main.
-- Prelude has the shared helpers: lists over native numbers, the widths of C, byte memory, and runs that
-- pass state and may fault. CString with its children is what the program uses of the C library.
--
-- How they meet: the handlers of Server run on a `World`, which holds the connection, the two payload
-- buffers, the system and the device. They call the driver through the callbacks in the connection,
-- and Sockets through the system. Main ties the platform, its table of interfaces and the server
-- together: the registers of the server are those of the handle that fpga_open gives.
--
-- Parameters. `Uio.Globals.UioOs` is the operating system under the platform, `Uio.Access.Bus` the
-- bus under a mapped device; `HeldLaws` of Uio/Platform/Resources says what POSIX promises of
-- descriptors and mappings. `Os.Os` is the operating system under the server; where a theorem needs
-- it, `Os.IsStream` says what POSIX promises of a connected stream socket, `Os.KeepsSent` that a failed
-- `send` and `recv` send nothing, and `StaysOpen` of
-- Sockets/Recv/Open that the client does not end its side. `Mmio.Mmio` is the hardware behind the
-- registers; where a theorem is about its memory, that is plain memory of bytes, Uio/Access/Ram.
-- Whether `char` is signed is a parameter of Driver/Slots.
--
-- Conventions. A run gives none where C has undefined behaviour or does not return; errors that the
-- code handles are values. Numbers are natural, with each wrap-around written out; size_t has 64 bits,
-- and a struct stores its low byte first. What goes through a pointer argument is returned.
--
-- Fuel. The socket loops run on one round more than the bytes asked for, since each round that goes on
-- moves a byte; the loop over freed descriptors runs on 257, since its `char` takes 256 values.
-- get_random_id, handle_client and the loop over clients need not end, and take their fuel as arguments.
--
-- Interleavings. The interrupt thread and the program are a step relation, Uio/Thread: a step is one
-- system call or one access to what they share, but that what happens between lock and unlock is one
-- step. A run is any sequence of such steps. Where the program makes the callback NULL between the
-- test and the call, the call is undefined and the step goes on. The server has one thread; the
-- steps of Server/Framed/Reachable are whole calls of its functions, in any order.
--
-- Not modelled: the text of messages on the console and the debug dumps; the help and version
-- texts; the build of the platform with UIO_UNIT_TEST_SW_MODEL_MODE; the code for Windows and for
-- the NIOS platforms; the tests. A payload of a management packet lies at an address of the
-- hardware that the code casts to a host pointer: the model faults there. What getopt_long makes of
-- the arguments is a parameter.
pub mod Prelude
pub mod Packet
pub mod CString
pub mod CircleBuff
pub mod Mmio
pub mod Os
pub mod Common
pub mod Sockets
pub mod Server
pub mod Driver
pub mod StreamDbg
pub mod Interfaces
pub mod Uio
pub mod Messages
pub mod Main
