-- ===== src/Lib.antt =====
-- Verification of Goofy-MicroOS: models of parts of the kernel (mckrnl), of the heap of user
-- programs (user/libc) and of one such program (user/calc), with theorems on them.
--
-- The parts and how they interact. The physical page allocator hands out the pages of memory, and
-- the virtual memory manager builds page tables in them; the scheduler picks the task that the
-- timer's interrupt resumes; the virtual file system finds the mount of a path and calls its file
-- system, of which the one in memory is modelled; a frame of the network goes to ARP, which keeps
-- a cache of hardware addresses, or to IPv4, which gives a packet to the handler of its protocol:
-- ICMP answers echo requests, and UDP and TCP route it to a socket. They share the string
-- functions. The debugger stub exchanges packets with a debugger over a serial line. User programs
-- have a heap in their own address space. The calculator is a user program of its own: a lexer, a
-- parser and an interpreter in a row.
--
-- The files.
--   Pmm (mckrnl/memory/pmm.c): the two bitmaps are lists of 32-bit words, a set bit is a free
--     page; the counters are modulo 2^32. `pmm_alloc`, `pmm_alloc_range` and the others keep their
--     names; the number of words is an argument, of which BITMAP_SIZE is one value.
--   Vmm (mckrnl/memory/vmm.c): memory is a function of a page and a place in it, so that
--     directories and tables are what the code reads through its pointers, shared tables included.
--     Contexts keep the page that they stand on; the table of tasks says which are active.
--     Vmm/Tables has the abstract view of an address space, and Vmm/Refine and Vmm/Create what the
--     operations do to it.
--   Heap (user/libc/stdlib/heap.c): headers at addresses, linked both ways. Heap/Chain says that
--     they tile the heap from its start to its end, and what the abstract list of blocks is; the
--     other modules say what an operation does to that list. `free` is `heap_free`.
--   Gdb (mckrnl/gdb): the encodings (encoding.c, utils.c); Gdb/Link (connection.c, gdb.c): the
--     serial line as the bytes still to come in and those sent, and the packets. What a C function
--     returns is a `Status`, which tells `GDB_EOF` from a failed assertion.
--   Sched (mckrnl/scheduler/scheduler.c): the table of tasks is a list; `schedule` returns which
--     registers the interrupt resumes.
--   Vfs (mckrnl/fs/vfs.c): a mount is named by its place, and an operation is the call that it
--     makes. Vfs/Ramfs (mckrnl/fs/ramfs.c, and `vmm_resize` of mckrnl/memory/vmm.c): a heap of
--     nodes; what `vmm_resize` leaves uninitialised is the argument `fresh`.
--   Net/Wire and Net/Checksum (mckrnl/include/net/stack.h, mckrnl/net/ipv4.c): packets are lists
--     of bytes, loaded as a little-endian machine does. Net/Ether (mckrnl/net/etherframe.c),
--     Net/Arp (mckrnl/net/arp.c), Net/Icmp (mckrnl/net/icmp.c): what is sent is a result, and the
--     polls of a wait are a list of the states that they find. Net/Sockets
--     (mckrnl/net/socket_manager.c): the bytes a socket of a task has received, in pages whose
--     contents when allocated are the argument `alloc`, and the table of sockets. Net/Dns
--     (mckrnl/net/dns.c): the names in a message. Net/Ipv4 (mckrnl/net/ipv4.c), Net/Udp
--     (mckrnl/net/udp.c), Net/Tcp (mckrnl/net/tcp.c): a state record each, with the sockets on a
--     heap whose freed cells are `none`; what is sent or handed to a socket is an event, and a
--     socket says whether its `recv` callback is set. Net/Tcp/Wait is `tcp_connect` with its wait,
--     in which each round has the packets that arrive before its poll.
--   Calc (user/calc): `lexer_tokenize`, the functions `__parser_...` without the underscores, and
--     `eval`; how a run ends is the type `Run`.
--   Text (mckrnl/utils/string.c): a string is the list of the bytes from a pointer to the end of
--     its object.
--   Prelude: what they share.
--
-- Faults. A read past an object, through a null pointer or through a dangling one, the call of a
-- callback that is the null pointer, an `abortf` and an `assert` are `none`, or a constructor that
-- says which.
--
-- Bounds and fuel. An `int` or `uint32_t` is modulo 2^32, a `uint16_t` modulo 2^16, where the code
-- lets it wrap. The search for a range has a round for each page, a loop over pages at most 2^20
-- rounds, the lexer a round for each byte, the parser three calls for each token and two more, and
-- the loop over carries of the checksum three rounds; a search that spends its fuel has a result
-- of its own. The look-up of a path in memory has a round for each byte, as each takes one. The
-- walk of `malloc` has a round for each segment, and `malloc` itself one for each time that it
-- starts again; the loop that decodes escapes has a round for each byte and one more. The walk
-- over a DNS name has a round for each byte and one more where no pointer is met, and may have no
-- end where one is.
--
-- Not modelled: device drivers, interrupt entry and the loading of page directories, which read
-- and write the machine; rendering and printing; DHCP, and of DNS the messages and the cache; the
-- commands of the debugger stub; the bytes in the segments of the heap; the system calls, which
-- forward to the parts above; making and ending tasks; the other file systems, of which FatFs is a
-- library; the rest of the user library and the other programs.
pub mod Prelude
pub mod Pmm
pub mod Vmm
pub mod Text
pub mod Gdb
pub mod Net
pub mod Calc
pub mod Sched
pub mod Vfs
pub mod Heap
