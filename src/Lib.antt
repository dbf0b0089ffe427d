-- ===== src/Lib.antt =====
-- sexpect: a server process that drives a program on a pseudo terminal, and clients that talk to
-- it over a Unix socket (spawn, expect, send, interact, wait, set, get and more). This library
-- models the message format, the transport, the server, the client, the command line, the start
-- of the server on its pseudo terminal, and the two text translations, and states what they
-- promise.
--
-- The parts and their files. Paths are from the root of the repository.
--
-- Base: shared names, Boolean tests on numbers, lists measured by native numbers, integers, and
-- signed 32-bit numbers by their bit pattern.
--
-- Tags (common.h): the tags, error codes and flags of messages.
--
-- Proto (proto.c, proto.h): the format of messages. Wire has the big-endian numbers; Message the
-- ttlv_t of proto.h as a data type, `node` with its list of children and its next sibling and
-- `null` for NULL, and the functions that build it and look children up; Encode has
-- ttlv_calc_size_ex and ttlv_encode; Decode has ttlv_decode. A number of w bits is a natural
-- number with its wrap-around written out; ints and longs are kept as bit patterns. Both return
-- an int, so that from 2^31 bytes on they fail. A failed encoding is `none`; a decoding is `ok`,
-- `failed` or `out_of_fuel`. Valid says which messages are well-formed; Format has their bytes
-- without a buffer; Size, RoundTrip, Sound, Lookup and Lengths are proofs. ttlv_decode recurs on
-- fuel, one unit more than there are bytes, which is enough since each round and each nesting
-- consumes eight bytes (Sound).
--
-- Server (server.c): Buffers has the raw buffer and the expect buffer with serv_init,
-- serv_read_ptm, drop_old_data and buf_raw2expect, the assert of the last as `none`. Lookback
-- says where the output of serv_pass begins, a pointer that leads nowhere as `none`. State has
-- the global struct of server.c as a record, with a list of what the server sent, typed,
-- signalled and resized; Expect has the matching of serv_expect, Pass serv_pass, Process
-- serv_process_msg and what it calls, Loop serv_loop. serv_process_msg and serv_pass return
-- `none` and `crash` where an assert fails or a NULL pointer is followed. Invariant, Overflow,
-- Output, Copied, PassSafe, PassFrame, Verdict, Tried, Outcome, InOrder, ProcessSafe, AtHead and
-- LoopSafe are proofs, and so are Track, TrackCopy, TrackPass, TrackMsg and TrackLoop, which
-- follow the whole output of the child through the buffers, and Exact, which says what `expect
-- -exact` finds in it. A round of serv_loop first reads the terminal, then hears the client,
-- then passes output, then drops old data; the parts share the record.
--
-- Escape (common.c, strunesc; client.c, cli_dump_cstring): C escapes read and written.
--
-- Glob (common.c, glob2re): globs as extended regular expressions.
--
-- Framing (common.c, readn, writen, msg_send, msg_recv): bytes through a socket. A call of readn
-- or writen is given the list of what read or write return, one after the other; it waits where
-- the list ends. Defs has readn, writen and msg_send, Recv has msg_recv with the static buffer
-- as an argument and, where ttlv_decode fails, the nodes it leaves; reading past the buffer is
-- `overruns`. Whole, Send, Deliver and Together are proofs.
--
-- Args (main.c; common.c, name2sig, str_rstrip, str1of): getargs. Options has the structs of
-- common.h and the command as a data type, Number arg2int and arg2uint, Signal name2sig. An
-- argument is one step (Step), which goes on, takes the next argument too, ends the loop or
-- exits; Passing and Other have the steps of each command, Scan the loop, Finish the checks
-- behind it with readfile and readfd. Where the source calls fatal the result is `exits` with
-- the code. Keep, PassNumbers, StartNumbers, Accepted, Scanned and Runnable are proofs.
--
-- Client (client.c): Request has the message of each command and cli_chkerr, Subst the
-- substitutions of interact, State the global struct with what the client showed and sent, Show
-- what `get` prints, Loop cli_hello, cli_disconn and cli_loop, Main cli_main. A run goes on,
-- waits for a message, ends with an exit code, hangs or crashes. Agree, Plain, Rounds, Exit,
-- Get, ReadBack and Unchanged are proofs, and so are AtOnce, which says what the commands do
-- that the server answers at once, Carried, its side of them, and Settled, the whole exchange.
-- The client's messages are those of Proto, the server's verdicts those of Server.Pass, and the
-- command is that of Args, so that a theorem can follow a request from the command line to the
-- server and the answer back to the exit code.
--
-- System (common.c, fatal, fatal_sys): a process as the system sees it, with its descriptors,
-- the file system, the mask, the directory, its session and its signals, and the ways in which
-- it ends. A part of the program comes to its end (`ok`) or ends the process.
--
-- Pty (pty.c): Tty has tty_raw and tty_reset over a driver, which may make a part of the changes
-- it is asked for; Open has ptym_open, ptys_open and pty_fork over the process of System. Raw,
-- Slave and Frame are proofs.
--
-- Startup (server.c, daemonize and serv_main; common.c, sock_connect; main.c, main): Defs has
-- serv_main, from serv_init to exit, with what each system call returns as a record (Calls) and
-- serv_loop of Server in its middle; a file that is opened for the log is a change of the file
-- system like the socket; Main has main. Where fork returns is data, so that the same definition
-- is the process that ends, the daemon, and the child that becomes the spawned program. Socket,
-- Listening, Serving, Ends, Descriptors and Program are proofs.
--
-- Common (common.c): Names has the tables of error codes and tags and common_init, Bits
-- count1bits, Clock Clock_gettime and strmatch_ex. Own, Ones and OneClock are proofs. count1bits
-- recurs on 32 rounds, which is enough since each round clears a bit.
--
-- What surrounds the program is a parameter. regcomp and regexec are one function from a
-- pattern, two flags and a subject to the offsets of the groups; in the client, which compiles
-- first, they are two. The clock, and what write, kill, ioctl, msg_send, select, accept, read
-- and msg_recv return, are data of each step (Env, Ready, Tick and World), and what the file
-- system and the environment say is a record of functions (Sys), so a theorem over all rounds
-- covers every order of events. The loops of strunesc and glob2re recur on the text with the
-- number of bytes to skip; readn and writen on the returns of the system calls, serv_loop and
-- cli_loop on the list of rounds, getargs on its arguments. cli_subst, cli_subst_raw and the
-- parser of a replacement recur on fuel, one unit for each byte of the text, which is enough
-- where each match moves on; where one does not the loop never ends. A number is printed with
-- ten digits at most, which an int never exceeds.
--
-- Not modelled: freeing memory and malloc that fails; logging; the socket inside the server and
-- the client, which send and receive whole messages; more than ten substitutions, which the
-- source stores behind an array of ten; usage (main.c), which prints; Realloc (common.c), which
-- passes on what realloc returns; ioctl(TIOCSCTTY) and setsid of daemonize failing; the code
-- under `#if 0`. Inside serv_loop, fatal_sys has no successor. Times are whole nanoseconds where
-- Clock_diff has a double.
pub mod Base
pub mod Proto
pub mod Pty
pub mod Tags
pub mod Server
pub mod Escape
pub mod Glob
pub mod Framing
pub mod Args
pub mod Client
pub mod Common
pub mod System
pub mod Startup
