-- ===== src/Lib.antt =====
-- systems-suite: systems programs in C, of which this library models the bakery simulator, the
-- S.H.A.M. protocol over UDP, the POSIX shell's jobs, command lines and pipelines, the packet
-- sniffer, and of the xv6 kernel with memory management the process management, the schedulers, the
-- demand paging and the swap files.
--
-- Bakery (bakery-simulator/bakery.c). Bakery/Shop holds the shared variables and one function for
-- each critical section of `customer_thread`; Bakery/Chefs the choices and the work of
-- `chef_thread`; Bakery/Threads the threads as places in their code, with `turn` for one critical
-- section of one thread and `run` for a list of turns in any order. A wait reads times that only
-- grow and marks that are set once, so a turn tests it where the code sleeps and tests again.
-- Bakery/Capacity and Bakery/Seats count the customers, Bakery/Booked and Bakery/Timeline follow
-- their times, Bakery/Exit the end of the chefs.
--
-- Transport (reliable-transport-protocol/client.c, server.c, sham.h). Transport/Packet has packets
-- and flags, Transport/Receiver the receiving loop of server.c (write, reorder buffer, window),
-- Transport/Sender the sending loop of client.c (`fill_window`, `process_ack`, `check_slots`, one
-- `pass`). Sequence numbers wrap at 2^32 and byte counts at 2^64. What the clock, `fread` and
-- `recvfrom` return are inputs. Transport/Datagrams joins both by a step relation in which any
-- datagram that was ever sent may arrive, any number of times, or never, and so may those of the
-- handshake but for the SYN-ACK, which the client would take for an acknowledgement; Transport/Early
-- lists them. Stream and Window are about the receiver, Source, Passes and Filling about the sender,
-- Progress and Network about both. Transport/Handshake has the three-way handshake and the name of
-- the file, Transport/Teardown what follows the loops up to the last ACK, Transport/Chat the chat of
-- either side, with a parameter for which side it is, and Transport/Checksum
-- `calculate_file_checksum`. A `sham_packet` on the stack is not initialised: what the memory held
-- is an argument wherever the code sends or reads it, and Transport/CString has what `strncpy` and
-- `%s` make of an array. Greeting, StartUp, Closing, Goodbye and Messages are about these, the first
-- and third as step relations, Transport/Flags about the flags of what the sender sends. The
-- receiver's inner loop has one round more than the buffer has slots, since each round frees one;
-- the sender's has two more than there are bytes to read.
--
-- Process (xv6-memory-management/kernel/proc.c, proc.h). Process/Table has the process table,
-- Process/Life the functions from `allocproc` to `kwait` and `kkill`, Process/Scheduler one round of
-- the three schedulers. A section under locks is one step; the success of an allocation or a copy is
-- an argument. A pid is an `int`, kept as its 32 bits, `vruntime` wraps at 2^64. Process/Pids is
-- about the pids in use, Process/Exits and Process/Kills about the end of processes, Process/Choice
-- and Process/Slices about what a scheduler picks and for how long. Process/Unassisted is about the
-- FCFS and round-robin policies of the other kernel (xv6-scheduling/xv6-riscv/kernel/proc.c).
--
-- Paging (xv6-memory-management/kernel/vm.c, proc.h). Paging/Space has the paging fields of one
-- process, the functions on `pgmeta` and the swap bitmap, Paging/Evict `try_evict_one` with FIFO
-- replacement and `kalloc_or_evict`, Paging/Fault `vmfault`. The page table maps page addresses to
-- permissions and bytes; whether `kalloc`, `readi`, `writei` and `mappages` succeed is the argument
-- `Outside`. Sequence numbers wrap at 2^64, addresses are below 2^38 and do not wrap. Paging/Slots
-- and Paging/Faults follow the slots of the swap file, Paging/Order the choice of the victim,
-- Paging/NextFault and Paging/RoundTrip a page on its way out and back. Paging/Clock has
-- `try_evict_one` as it is compiled with USE_CLOCK; Paging/Hand and Paging/SecondChance follow the
-- hand, which looks at each entry of the table once at most. Paging/SwapFile has `alloc_swapfile`
-- and `remove_swapfile` over a root directory, with the part of a path that `skipelem` and `namecmp`
-- of fs.c keep; what `nameiparent`, `ialloc` and `dirlink` answer is the argument `FileSystem`.
-- Paging/SwapNames is about the names, Paging/SwapEnds about a swap file from its making to its
-- removal. Paging/Fork has `uvmcopy`; Paging/Forked is about copies that fail, Paging/Copies about
-- those that do not. Paging/Grow has `growproc` with `uvmalloc` and `uvmdealloc`, Paging/Growth and
-- Paging/Undone are about a growth that fails.
--
-- Shell (posix-shell/src). Shell/Jobs has the table of jobs of jobs.c and its functions, with the
-- reports of `waitpid` as a list and an id, an `int`, as its 32 bits; Shell/Ids and Shell/Recent are
-- about the ids of the jobs. Shell/Text has strings without their NUL and what is asked of them,
-- Shell/Spacing the spaces that shell.c puts around operators, Shell/Parser the syntax check of
-- parser.c, Shell/Commands the way from a group of commands to a pipeline, Shell/History the history
-- file of intrinsics.c, and Shell/Line `process_command_line` with `execute_log`, which call one
-- another: the fuel counts these calls, and running out of it is a result of its own. What a command
-- does besides is an action in a list. Shell/Words is about the spacing, Shell/Recall about the
-- history, Shell/Loops about the calls. Shell/Descriptors has the file descriptors of
-- `execute_pipeline` (execute.c), a table for each process, Shell/Control the name of its job, with
-- `bg` and `ping`, Shell/Directories `hop`; what `pipe`, `open`, `kill` and `chdir` answer are
-- arguments. Shell/Pipes, Shell/Attach and Shell/Wiring follow the descriptors of a child,
-- Shell/Returns the way back of a hop.
--
-- Sniffer (packet-sniffer/cshark.c, cshark.h). A packet is the list of its captured bytes, and
-- Sniffer/Bytes reads it: a read beyond its end is `none`. Sniffer/Decode has `process_packet` layer
-- by layer, with what it prints as a record, Sniffer/Classify the two functions behind the summary's
-- columns, Sniffer/HexDump the hex dump, Sniffer/Session the stored packets and the loop of a
-- capture, Sniffer/Menu captures, inspection and the main menu. What libpcap, `malloc` and the user
-- answer are arguments. The rows of a hex dump are as many as there are bytes at most, since each
-- takes one or more. Sniffer/Reads and Sniffer/Bounds are about the reads of a packet,
-- Sniffer/Summary and Sniffer/Columns about the summary against the decoded packet, Sniffer/Captures
-- and Sniffer/Sessions about the stored packets, Sniffer/Dumps about the dump.
--
-- Prelude holds the Boolean tests, lists and counting over the native numbers, and the scan for a
-- least entry that the bakery and the kernel share (Prelude/Scan).
--
-- Not modelled: terminal and socket calls, the reading of arguments and the logs, the transport's
-- loss rate but for the packets that it drops, the shell's `reveal`, `echo`, prompt and signal
-- handlers, its waiting for pipelines and `fg`, which hang on the terminal's process groups, the
-- kernel's system calls, and the parts of xv6 that are copied from the teaching kernel: its file
-- system, drivers and traps.

mod Prelude
pub mod Bakery
pub mod Transport
pub mod Process
pub mod Paging
pub mod Shell
pub mod Sniffer
