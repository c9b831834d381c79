-- ===== src/Lib.antt =====
-- A model of parts of the uniOS kernel, a kernel for x86_64 in C++, with theorems about them.
--
-- The parts. Memory: the frame allocator hands out page frames, one or several in a row, which it
-- finds in a bitmap, and counts the references to each; the heap cuts a frame into blocks of
-- one size and keeps the pages it has cut in a hash table; a process keeps its virtual memory areas
-- in an ordered list. Files: pipes are rings of bytes in a table, reached through vnodes; a file
-- in memory keeps its bytes in page frames; the partition scan reads the tables of a disk and
-- makes a block device of each partition, whose reads and writes go on to the disk. Network: a
-- driver hands a frame to ethernet_receive, which hands its payload to ARP or IPv4, and IPv4 hands
-- its own to ICMP or UDP; on the way out UDP calls ipv4_send, which asks ARP for the hardware
-- address of the next hop and calls ethernet_send. The resolver builds queries and reads answers,
-- which go through UDP. Input: the pump reads mouse and keyboard and fills the event queue of the
-- window manager's process, which polls it. Programs: the loader checks an ELF file, adds the
-- areas of its segments to the process and copies their bytes to its pages. Processes: they take
-- turns at a mutex and sleep in its queue. Window manager: damaged rectangles are clipped to the
-- screen, queued and merged, and a policy says when a frame is presented.
--
-- The files, and the code they are about:
--   Memory/Vma         src/mm/vma.cpp, include/kernel/mm/vma.h
--   Memory/Bitmap      src/mm/bitmap.cpp, include/kernel/mm/bitmap.h
--   Memory/Pmm         src/mm/pmm.cpp
--   Memory/Heap        src/mm/heap.cpp; Tracker is its table of pages, Calls stands on malloc
--   Fs/Pipe            src/fs/pipe.cpp, include/kernel/fs/pipe.h
--   Fs/Memfd           src/kernel/fs/memfd.cpp
--   Fs/Partition       src/fs/partition.cpp, include/kernel/fs/partition.h
--   Net/Bytes          the byte order helpers of src/net/ethernet.cpp, and packets as bytes
--   Net/Ethernet       src/net/ethernet.cpp, include/kernel/net/ethernet.h
--   Net/Arp            src/net/arp.cpp, include/kernel/net/arp.h
--   Net/Ipv4           src/net/ipv4.cpp, include/kernel/net/ipv4.h
--   Net/Icmp           src/net/icmp.cpp, include/kernel/net/icmp.h
--   Net/Udp            src/net/udp.cpp, include/kernel/net/udp.h
--   Net/Dns            src/net/dns.cpp, include/kernel/net/dns.h
--   Net/Dhcp           src/net/dhcp.cpp: what a packet of the server leads to
--   Events             src/kernel/core/input_event.cpp, include/kernel/event.h, include/uapi/event.h
--   Wm                 include/wm/interaction_policy.h: Present for when a frame is presented,
--                      Rect and Damage for the damaged rectangles of the screen
--   Kernel/Elf         src/kernel/core/elf.cpp, include/kernel/elf.h
--   Kernel/Mutex       src/kernel/sync/mutex.cpp, include/kernel/sync/mutex.h
--   Prelude            shared names: tests, lists over the native numbers, rings, signed integers
--   Tests              runs on concrete inputs, and the theorems at inputs that meet their hypotheses
-- A function of the source keeps its name. A file holds the definitions of its part; the files in
-- the folder of that name hold the proofs, each named for what it proves.
--
-- How state is modelled. A global array or list is an argument and a result, and a struct is a
-- record. A list linked by pointers is a list, since no code modelled here shares its nodes.
-- Bytes and words are natural numbers, and where a sum or a product of the source can wrap, the
-- wrap is written out with the width of its type. A pointer to fill in, with a flag, is an
-- option. Spinlocks and disabled interrupts make the operations between them atomic, so that
-- processes and interrupts are sequences of operations in any order. The accesses to a mutex are
-- steps of their own, since mutex_try_lock takes no lock, and calls on the table of UDP ports,
-- which takes none either, come one after the other. A blocking read or write of a pipe is a
-- round that returns or sleeps.
--
-- Bounds and fuel. Loops over arrays are recursion on lists, or on the number of rounds that are
-- left, which the source bounds by an index that goes up to an end. The loops of Memory/Bitmap get
-- the distance to the end as fuel, and each round comes nearer to it, by a bit or by a word. The
-- loop that folds a checksum has fuel 3, since two rounds end it for any sum of 32 bits. The loops
-- over the bytes of a file in memory, of a segment and of a name in an answer have as fuel the
-- bytes, the pages or the bytes that are left, and each round takes at least one. The loops that
-- merge rectangles have as fuel their number, and each round that merges lowers it. A probe of
-- the heap's table has as fuel the length of the table, and malloc two calls: the second one
-- comes after a page is cut, and finds a block. The loops over DHCP options have as fuel the
-- bytes of the options.
--
-- What enters as an argument: the outcome of each malloc, the answer of arp_resolve in ipv4_send,
-- the packets that net_poll delivers while arp_resolve waits, the blocks of a disk with the reads
-- of it that fail, the free frames that a file in memory may take, whether the page table takes a
-- page, the ticks of the timer, the state of mouse and keyboard, and the processes that live.
--
-- Not modelled: the drivers, interrupt and paging code and the boot loader, which are about
-- hardware; the page tables, the scheduler, the file systems on disk, TCP, the packets and the
-- waiting of the DHCP client, the wait of the resolver, and the user programs, but for the policy
-- of the window manager.
pub mod Prelude
pub mod Kernel
pub mod Memory
pub mod Fs
pub mod Net
pub mod Events
pub mod Wm
mod Tests
