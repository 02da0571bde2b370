-- ===== src/Lib.antt =====
-- A verification library for tinyos3, a small operating system kernel in C.
--
-- The program. A scheduler (kernel_sched.c) runs threads on several cores by a multilevel feedback
-- queue. Condition variables and the kernel semaphore (kernel_cc.c) put threads to sleep and wake
-- them. Processes (kernel_proc.c) own threads (kernel_threads.c) and tables of file ids; a file id
-- refers to a file control block, which is counted and shared (kernel_streams.c) and which passes
-- reads and writes on to a driver: a pipe (kernel_pipe.c), a socket, which is a pair of pipes once it
-- is connected (kernel_socket.c), a device (kernel_dev.c), or the list of processes. All of them link
-- their blocks by the intrusive lists of util.h.
--
-- The files.
--   Base          shared names, tests on numbers, lists over native numbers, sums
--   Rlist         util.h: nodes on a heap, rl_splice and the list operations; Ring says what a list
--                 is, Splice and Queue treat the operations, Walk, Reverse and Select the loops
--   Sched         kernel_sched.c, kernel_sched.h: TCBs, queues, timeouts; Queue, Boost, Order, Timeout and
--                 Timed on the timeout list, and Waiting and Queued on the threads in the queues
--   Cc            kernel_cc.c: mutexes, condition variables, the kernel lock; Signal, Lock
--   Streams       kernel_streams.c, kernel_streams.h: FCBs, file ids, the stream calls; Refs counts
--                 references, Calls and Reserve keep the counts, Pair takes two
--   Pipe          kernel_pipe.c, kernel_pipe.h: Inv is the invariant of the ring buffer, Fifo the
--                 queue that it implements, Refine the refinement, Ends the closing of the ends, Open
--                 sys_Pipe and Opened what it gives, Overrun what happens when the buffer is full
--   Socket        kernel_socket.c, kernel_socket.h: SCBs, the port map, opening, listening, closing;
--                 Connect has Accept, Connect and ShutDown, Ports is the invariant of the port map,
--                 Accept and Shut treat the calls of their names
--   Dev           kernel_dev.c and the open calls of kernel_streams.c; Serial is on serial reads
--   Exceptions    util.c and the exceptions of util.h: frames, handlers and their unwinding
--   Init          kernel_init.c: the boot on core 0; Exec has the first two processes, Booted the state
--                 behind the boot
--   Symposium     symposium.c, symposium.h: the dining philosophers; Seats has the neighbours, Forks who
--                 eats, Turns the steps, Ends whole runs
--   Args          the packing of arguments of util.h; Round is the round trip
--   Bios          bios.c, bios.h: cores, interrupts, halting; Devices has the serial ports and the rounds
--                 of the daemon, Timer the timers, Machine the steps of the whole machine. Halt,
--                 Rounds and Reached are on the list of halted cores, Served, Dispatch and Taken on what
--                 a core does with a signal, Poll and Round on a round of the daemon, Alarm on the
--                 timers, Ports on serial reads down to the files of the host
--   Userlib       tinyoslib.c, tinyoslib.h: Launch is on the arguments of a program, Epochs on the barrier
--   Shell         tinyos_shell.c: the programs and the command line; Remote has the messages of the remote
--                 server and its client, Line is on the command line, Puzzle on hanoi, Request on
--                 the messages
--   Kernel        kernel_proc.h and the globals of kernel_proc.c: PCBs, PTCBs, the whole state;
--                 Family is the invariant of the process tree
--   Threads       kernel_threads.c: creation, join, detach, exit; Family, Exit
--   Proc          kernel_proc.c: the table, Exec, WaitChild, Exit (Proc/Exit) and the information
--                 streams (Proc/Info); Family, Table, Boot and Blank, and Fids on the
--                 file ids of a process
-- Each definition has the name of its C function or type in the spelling of this language
-- (FCB_reserve is fcb_reserve, sys_Dup2 is sys_dup2, Pipe_CB is Pipe); a loop or a part of a
-- function that is a definition of its own says so above it.
--
-- The model. State is passed explicitly. Blocks, threads, processes and cores are named by
-- numbers, NULL is none, a map from numbers to records is the memory of one type, and memory from
-- malloc comes in as an argument. A region under a spinlock is one step. A call that may sleep
-- returns a value that says whether it has returned or sleeps, with the state that the others then
-- find, and what it does when it is woken is a definition of its own. A failed assertion and a NULL
-- that is followed are the value none, or fails. Where a list is only used through the operations of
-- util.h, it is the list of its elements; Rlist models the nodes themselves.
-- Two assertions are left out: the one of sleep_releasing, whose state is stopped or exited wherever it
-- is called, and in wakeup the one on the timeout list, of which Sched/Timed says when it holds. Out of
-- range, a store of process_line or of the arguments in procinfo_read, and the free of a bad pointer in
-- socket_close, are none as well.
-- Unsigned counters wrap at 2 ^ 32 and times at 2 ^ 64. The positions and the count of a pipe and the
-- count of a barrier are not wrapped: the first stay far below 2 ^ 31, the
-- second at most the number of threads.
--
-- Bounds and fuel. The walks of util.h take a number of rounds, and the theorems on them ask for more
-- rounds than the list has elements. The scan of timeouts has one round more than the timeout list has
-- entries, a broadcast as many as the ring has waiters, the wait of process 1 one more than it has
-- children. A read or a write of a serial port tries again while the host interrupts it, on fuel: the
-- theorems ask for more rounds than interruptions. The loops over Read and Write of the remote messages
-- have as many rounds as bytes. The other loops recurse on a list or on a fixed number of entries.
--
-- Time. The turns of the philosophers interleave freely, a philosopher who sleeps wakes only when she is
-- signalled, and thinking and eating take no step. A symposium of one philosopher is left out: she is
-- her own neighbour.
--
-- Parameters. The device drivers take the serial ports as a record of two functions, which read and
-- write a byte; Bios/Ports gives them from bios.c over the files of the host, whose reads take the oldest
-- byte that has come in. The signals, the timers and the files of the host are records of functions. A
-- host that merges its signals keeps at most one SIGUSR1 for a thread, as POSIX has it. Interrupt handlers are a function on the machine. The ends of a
-- remote connection are a record of Read and Write, which pass on some of the bytes. sys_Connect stores the address of
-- a local variable where sys_Accept expects the request, so what sys_Accept reads there is an argument.
-- The handlers of exceptions are a function that tells whether a handler raises.
--
-- Not modelled. Threads, barriers, signal masks and contexts of the host under the virtual machine, the
-- opening of its terminals and its shutdown; the contexts, stacks and memory of threads; the start
-- functions, which run user code; the dispatch of system calls (kernel_sys.c); the C streams of the user
-- library; the pipes that the shell sets up between its programs, the console and the log of the
-- remote server, and the programs of the shell that only print; the programs that show the terminals
-- (console.c, terminal.c), the tests, and the examples but for the monitor of symposium.c.
pub mod Base
pub mod Args
pub mod Bios
pub mod Cc
pub mod Dev
pub mod Exceptions
pub mod Init
pub mod Kernel
pub mod Pipe
pub mod Proc
pub mod Rlist
pub mod Sched
pub mod Shell
pub mod Socket
pub mod Streams
pub mod Symposium
pub mod Threads
pub mod Userlib
