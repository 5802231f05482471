-- ===== src/Lib.antt =====
-- lklftpd, an FTP daemon that serves a volume mounted by the Linux kernel library, on the Apache
-- Portable Runtime. Each client has a thread, which greets it, reads one command after the other and
-- calls the handler of each; a data connection is made for a transfer, by a listening socket (PASV) or
-- by the client's address (PORT), and closed behind it.
--
-- A function of the daemon that has effects is a run: a function of the session (struct lfd_sess) and
-- of the calls made so far, which returns a value, or halts for one of the reasons that System/Monad.antt
-- names. What the runtime answers to a call is a parameter, and depends on the whole history of calls, so
-- that a file system, a network peer and a clock are such parameters. The files of the volume are called
-- through the same interface there.
--
-- The functions on the files of the volume (fileops.c, filestat.c, dirops.c) are modelled by themselves,
-- on a kernel whose calls are a parameter and whose state is passed on. A run of them is of one thread:
-- the mutex of a shared file is left out.
--
-- Base            tests on numbers, lists and byte strings
-- System          the runtime's interface, the session of sess.h and sess.c, runs
-- Ftpcodes        the reply codes of ftpcodes.h
-- Cmdio           cmdio.c: replies and command lines; Codes: the digits of a code
-- Ascii           utils.c: the line-ending conversions; Spec: what they mean on whole texts;
--                 Expand, InPlace, Stream: that the loops do that
-- Connection      connection.c, first half: ports, binding, the parser of number lists, with the proofs
--                 in Ports and Binding
-- DataChannel     connection.c, second half: handle_pasv, handle_port, the socket of a transfer
-- Paths           the functions on paths of cmdhandler.c; Laws: their properties
-- Directory       RMD, MKD, PWD, CWD, CDUP, RNFR, RNTO, DELE of cmdhandler.c
-- Control         USER, PASS, SYST, TYPE, QUIT, ABOR, SITE, FEAT of cmdhandler.c
-- Transfer        lfd_socket_write_full, do_file_send_rwloop, do_file_recv of cmdhandler.c, with what they
--                 move in Write, Files, Receive, Ends, Truncated and RoundTrip
-- FileCommands    RETR, STOR, APPE, STOU of cmdhandler.c; Unique: the search for a free name
-- Listing         LIST of cmdhandler.c
-- Worker          worker.c: the protocol loop and the thread; Rename, Renamed, Refused: the state
--                 behind RNFR
-- Sound           the invariant of a session, and that every command and the loop keep it
-- Listener        listen.c: the listening socket; Accept: the loop that accepts clients, with the proofs
--                 in Opens and Accept/Served
-- Main            main.c: the command line, the disk, and main, as the list of its calls; Order, Closes: the
--                 calls of a start that succeeds, and the closes of the disk file
-- Kernel          the kernel library's interface; Word: ints and sizes; Laws: a regular file
-- Fileops         fileops.c: the file and its flush; Open, Read, Write, Seek: its operations; View: what
--                 a buffered file stands for; Contents, Reads, ReadLoop, Writes, WriteLoop, Buffered,
--                 Seeks, Reading, Seeking, RoundTrip: that the operations do what they do to a content and a
--                 place; Plain, PlainWrite: files without a buffer; Opens: the file that is opened;
--                 Direct: a failed write without a buffer
-- Filestat        filestat.c; Bits: the bits of a mode; Calls: what calls the kernel; Names, Perms, Attrs:
--                 the permissions
-- Dirops          dirops.c: the buffer of directory entries, with the proof in Entries; Handles: opening
--                 and the like; Read: lkl_dir_read
-- Tests           a concrete runtime, runs in it, and the theorems at concrete inputs
--
-- The names of the functions are the source's. A handler with nested early returns is cut into parts
-- that are called one from the other (retr_argument, retr_ready, retr_open, ... for handle_retr).
--
-- Bounds. Numbers are natural; apr_size_t wraps at 2 ^ 64, apr_port_t at 2 ^ 16, unsigned int at 2 ^ 32.
-- A loop whose end depends on the runtime's answers runs on fuel, and halts by out_of_fuel without it:
-- the transfers, the listing, the search for a free name, and the protocol loop, by its passes.
-- lfd_socket_write_full gives itself one round more than there are bytes, and the search for a port has
-- the source's own counter. In the files a call that the kernel interrupts is tried again on fuel; the
-- loops over a buffer give themselves one round more than there are bytes.
--
-- Not modelled: log output; memory pools, which hold values here; the failure of apr_pool_create in a
-- session; in main.c the signal handler and the text of the help, and the build without LKL_FILE_APIS.
-- lfd_worker_protocol_main, which only calls lfd_worker_protocol_main_impl and then apr_thread_exit, and
-- what lfd_listen does before its loop are left out. A reply's text is what the parameter apr_pvsprintf
-- makes of the format.
pub mod Base
pub mod Ascii
pub mod System
pub mod Ftpcodes
pub mod Cmdio
pub mod Connection
pub mod DataChannel
pub mod Paths
pub mod Directory
pub mod Control
pub mod Transfer
pub mod FileCommands
pub mod Listing
pub mod Main
pub mod Worker
pub mod Sound
pub mod Listener
pub mod Kernel
pub mod Fileops
pub mod Filestat
pub mod Dirops
mod Tests
