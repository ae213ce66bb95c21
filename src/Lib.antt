-- ===== src/Lib.antt =====
-- Arwill's kernel: connections, streams, memory, the event log and storage, with what they guarantee.
--
-- Arwill is a small operating system. Its kernel keeps TCP connections (kernel/tcp.c) whose bytes go
-- through two rings (kernel/tcp_stream.c) that the IPv4 endpoint (kernel/ipv4.c) fills and drains; it
-- hands out physical pages and makes a heap of them (kernel/memory.c); it records events in a ring
-- (kernel/log.c); and it keeps files (kernel/arfs.c) on regions of a block device
-- (kernel/block_device.c) and its configuration (kernel/config.c) in one of those files.
--
-- The files, from the repository's root:
--   Prelude          shared names, Boolean tests and words of 8 to 64 bits; Prelude/Lists has the
--                    lemmas on lists, Prelude/Ring the window of a circular buffer as a list.
--   Tcp              kernel/tcp.c and include/arwill/kernel/tcp.h. Tcp/Types has the segment and the
--                    listener, Tcp/Sequence the comparison of sequence numbers, Tcp/Machine connect,
--                    receive, reset and begin_close. Tcp/Graph, Invariant, Rejection, Handshake,
--                    Transfer and Close have the proofs. `receive` is one chain of tests in the code
--                    and is cut by phases here, in the code's order.
--   Stream           kernel/tcp_stream.c, and enqueue_stream_receive of kernel/ipv4.c. Stream/Ops has
--                    the operations, Stream/Invariant and Stream/Queue the proofs.
--   Log              kernel/log.c, with arwill_clock_monotonic_milliseconds of kernel/clock.c.
--   Memory           kernel/memory.c. Memory/Words has the alignment of words, Memory/Pages the
--                    physical allocator, Memory/Heap kmalloc and kfree; their child modules prove.
--   Text             kernel/text.c; Text/Decimal has the decimal numbers of kernel/arfs.c and
--                    kernel/config.c.
--   Files            kernel/filesystem.c: the interface of a file system, whose callbacks are parameters.
--   Config           kernel/config.c. Config/Types has the configuration and its defaults, Config/Parse
--                    the parser of its file and load, Config/Store set and persist; Config/Values,
--                    Safety, Update, Output, Lines, Roundtrip and Durable have the proofs.
--   Registry         kernel/device.c.
--   Block            kernel/block_device.c; Block/Region has its regions.
--   Arfs             kernel/arfs.c. Arfs/Types has the entries, Arfs/Paths the tests on paths,
--                    Arfs/Sectors the allocation of a run of sectors, Arfs/Manifest the text that
--                    persist_manifest writes, Arfs/Ops write, create, remove and read, Arfs/Storage
--                    the listing and the statistics, Arfs/Parse the manifest's parser and Arfs/Mount
--                    mounting. Of the proofs, Entries, Placement, Keeps and Steps are about what every
--                    request keeps; Found, Contents, Cases, Stored, ReadBack, Written and WriteRead
--                    about what is read after a write; Lines, FileLine, Roundtrip, Reparse and Remount
--                    about the manifest; Below, Listing and Capacity about the queries.
--   Catalog          kernel/boot_catalog.c, with the identity of include/arwill/identity.h.
--   Http             libs/libhttp/http.c: Http/Address parses addresses, Http/Request builds requests;
--                    Http/Taken, Checked, Printed, Text and Sent have the proofs.
--   Dns              libs/libnet/dns.c: Dns/Query builds queries, Dns/Response parses what is answered;
--                    Dns/Names, Records and Answer have the proofs.
--   Process          kernel/process.c: the table of processes, spawning, the runs of ready processes, and
--                    how a process gives the processor back. Process/Spawn, Added, Rounds and Turns have the
--                    proofs; Process/Turns has what a process may do in its turn.
--
-- How the code is read. A struct behind a pointer is a value that an operation takes and gives back; a
-- function's test that such a pointer is not null has no counterpart, since no value is null. A
-- pointer to data that a caller may leave null is an Option. Words wrap around at their width, which is
-- written out. An array with a count of entries in use is the list of those in use. What is called
-- through a function pointer (the clock, a block device, a file system) is a parameter. A segment's
-- window and segment size, which kernel/ipv4.c writes into what the state machine sends, are arbitrary
-- in the theorems on connections. The headers of the heap's blocks stand in the heap's memory in the
-- code; here the chain of headers is a list of blocks with their addresses. A header takes 32 bytes:
-- its struct is of 24 on x86-64, rounded up to 16. In kernel/arfs.c a text is its bytes before the NUL, and
-- a slot of the array of entries that is not in use may hold a name from before (`stale`), which stays
-- where a new one is too long, and is arbitrary. The driver behind a device is a parameter, and that it
-- keeps what it is given a hypothesis (Arfs/Contents: IsDisk), of which Arfs/Tests/Disk has an instance: a
-- function from sectors to bytes. A switch to a process is a parameter too, with the hypothesis that
-- the process adds processes and runs the ready ones, as often as it likes, and then yields or ends
-- (Process/Turns: Turn).
--
-- Loops are recursion on the list or on the number they run through. Recursion on fuel stands in
-- Text/Decimal (a buffer of 20 digits, and of 10, which every 64-bit and 32-bit word fits, so that no
-- digit is lost), in Arfs/Sectors, whose fuel is the number of the loop's
-- candidates, in Config/Parse, where each round of the loop over a file takes a byte at least and the
-- fuel is the number of bytes, and in Arfs/Parse, likewise, with one more for the round that ends the loop.
-- In Dns/Response the fuel is the 128 rounds after which the code gives up on a name.
--
-- Not modelled: what a process computes between two switches, services, the shell, the rest of the
-- IPv4 endpoint, the programs and their libraries; drivers and processor code, which are effects on
-- registers; and BearSSL in third_party, another project's library.
pub mod Arfs
pub mod Block
pub mod Catalog
pub mod Config
pub mod Dns
pub mod Files
pub mod Http
pub mod Log
pub mod Memory
pub mod Prelude
pub mod Process
pub mod Registry
pub mod Stream
pub mod Tcp
pub mod Text
