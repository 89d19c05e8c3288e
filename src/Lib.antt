-- ===== src/Lib.antt =====
-- Verification of the C programs under tlpi/: the solutions to exercises of The Linux
-- Programming Interface.
--
-- Each program is a component of its own. They share the calls of the kernel and the error
-- functions of tlpi/lib, which end the process with status 1. A command over a state S is a
-- function from S to a run: it returns a value and a state, exits with a status, faults where C
-- leaves the behaviour undefined, as at an address that is not mapped, or uses up the fuel of a
-- loop (Base/Process). Base/Returns and Base/Ends say how a run goes; Base/Int has the signed
-- integers and the conversions of C.
--
-- * Malloc models tlpi/c7/7.2.c. Malloc/Defs has the variable head, the headers by address, and
--   pop_from_free_list, c_malloc and c_free under their names; the loops are best_fit, find_top
--   and release. Addresses and size_t wrap at 2 ^ 64, int and long conversions are written out.
--   sbrk is a parameter whose law IsSbrk (Malloc/Chain) is what sbrk(2) says. Well-formedness is
--   IsHeap (Malloc/Invariant): the blocks of the client and of the free list do not overlap
--   (Malloc/Layout), and the list has NULL in each previous link. Malloc/Main has main, whose
--   values overlay the links of the headers; list_fuel is 3, since its list has at most one
--   entry when a block is given back. Fuel bounds the length of the free list.
-- * Posix is the interface to the file calls: Posix/Calls has the operations, Posix/Files what
--   they are about, Posix/Promises what the manual pages say of them, short reads, short writes
--   and errors included, and Posix/Simple a kernel that meets the promises; Posix/Extended puts
--   more state beside it.
-- * Copy models tlpi/c13/13.1.c (copy_main) and has the definitions for tlpi/c4/ccp.c
--   (ccp_main), for any size of the buffer. Fuel bounds the number of reads: more than the
--   length of the source is enough, as each read that does not end the loop takes a byte.
-- * Environ models tlpi/c6/6.3.c. Environ/Defs has setenv_check, c_setenv, len (str_length),
--   c_unsetenv and print_env; the C library is a parameter (Library), and Environ/Entries says
--   what it promises about the list of entries; Environ/Variables is the abstract view, a
--   function from names to values, and Environ/Demo the main of the file. Fuel bounds the number
--   of entries.
-- * Vector models tlpi/c5/5_7.c: writev, readv and writeToFile (write_to_file) over Posix, with
--   gather and scatter for their loops, and main (vector_main) in Vector/Main.
-- * Writes models the programs that write many times to one file: append_args is the main of
--   tlpi/c5/5_3.c, with append_file behind its arguments, write_bytes_args that of
--   tlpi/c13/13.2.c, with write_bytes. Fuel bounds the number of writes.
-- * Sparse models tlpi/c4/cp.c (sparse_main): the inner loop writes the bytes that are not null
--   and seeks over those that are. The rounds bound the number of reads; for one buffer its size
--   bounds the rounds.
-- * Ccp has the theorems on ccp_main.
-- * Xfer models tlpi/c57/us_xfr_cl.c (client_main) and tlpi/c57/us_xfr_sv.c (server_main:
--   server_socket, then serve for each connection of its endless loop) over the interface
--   Sockets; Xfer/Transfer says what the calls promise of streams that end. Fuel bounds the
--   number of reads of one stream.
-- * Dup models tlpi/c5/5_4.c: dup_fd and dup2_fd, and in Dup/Main the functions that call them
--   (duplicate, duplicate2, using_dup, using_dup2, dup_main); Dup/Table says what fcntl(2)
--   promises of the table of descriptors.
-- * Tail models tlpi/c13/13.5.c (tail_main): tail_search goes back over the file in chunks,
--   scan_back over a chunk, and print_rest copies the stream that begins there. Tail/Stdio says
--   what is relied on of streams and of read(2) on regular files. More fuel than bytes is enough
--   for both loops.
-- * Tee models tlpi/c4/tee.c (tee_main, tee_up) over Posix and a stream of the C library
--   (Console). Tee/Turns says what is relied on of the standard input and of write(2). The loop
--   does not end by itself, so no fuel is enough.
-- * Signals models tlpi/c20: Signals/Defs has handler, printSigset (print_sigset), printSigMask,
--   printPendingSigs and the main of 20.1.c (receiver_main), in which the kernel may call the
--   handler between any two actions (interrupted), and the counts wrap around modulo 2 ^ 32,
--   where an int that overflows is undefined; Signals/Shown has what its last loop prints;
--   Signals/Interrupt has siginterrupt of 20.4.c. Fuel bounds the turns until SIGINT comes; a
--   loop over the signals has the number of signals.
-- * Mapping models tlpi/c49/49.1.c (map_main), which copies by memcpy between two mappings;
--   Mapping/Regions says what is relied on of fstat, ftruncate, mmap and memcpy.
-- * Shared models tlpi/c5/5_5.c (shared_main), which writes by two descriptors of one open file
--   description.
-- * Release models tlpi/c7/7.1.c (release_main, with allocate and free_from for its loops). More
--   fuel than free-max is enough.
-- * Seek models tlpi/c5/5_1.c (offset_main) and tlpi/c5/5_2.c (append_main, create_file): a
--   write behind a seek, without O_APPEND and with it.
-- * Datagram models tlpi/c57/unix_domain_datagram_sock.c (Datagram/Pair: main, sender_turn,
--   receiver_turn) and tlpi/c57/57.4.c (Datagram/Named: main, and a turn for each of its three
--   processes). A call may also wait; a schedule says whose turn it is, and run follows it. The
--   promises are IsDatagrams of Datagram/Calls and IsNamed of Datagram/Stages.
-- * Paging models tlpi/c49/49.4.c (pages_main) and tlpi/c49/49.3.c (larger_main) over the
--   interface Memory, in which a load of a byte can end the program.
-- * Signals/Pause models tlpi/c20/20.2.c (ignore_main, for any number of rounds of its endless
--   loop).
-- * Squares models tlpi/c6/6.1.c (square, do_calc, main), whose products may overflow an int.
--
-- Not modelled: printf and the text of messages, the permission bits and O_SYNC, 20.3.c, the
-- prints of tlpi/c50, 6.2.c and the small programs, whose behaviour is that of the kernel and
-- the compiler, and SICP/, which is Scheme.
--
-- A call that fails, as a theorem on files and descriptors says it, is one that could have
-- succeeded: an open of a name that is there or is to be made, a read, write, close or fsync of
-- an open descriptor, a seek to a position that is not before the file (`Reasons` of
-- Posix/Promises).
pub mod Base
pub mod Ccp
pub mod Copy
pub mod Datagram
pub mod Dup
pub mod Environ
pub mod Malloc
pub mod Mapping
pub mod Paging
pub mod Posix
pub mod Release
pub mod Seek
pub mod Shared
pub mod Signals
pub mod Sparse
pub mod Squares
pub mod Tail
pub mod Tee
pub mod Vector
pub mod Writes
pub mod Xfer
