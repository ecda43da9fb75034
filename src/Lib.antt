-- ===== src/Lib.antt =====
-- msglib-cpp, a header-only library for signals and messages between the threads of one
-- process.
--
-- The program and the files that model it:
-- * include/msglib/detail/BytePool.h hands out blocks of one size and counts those left. Pool
--   has `DataBlock`, `put`, `BytePool`, `alloc` and `free`. The std::pmr memory resource under
--   it is not code of the repository: Pool.Resource is an interface with the behaviour that the
--   pool relies on, and Pool.Buffer an instance on a bounded arena. Pool.Counting runs
--   histories of calls.
-- * include/msglib/detail/Queue.h is a bounded queue for several threads. Queue has the
--   critical section of each method. Queue.Threads has any number of threads that push and that
--   wait in `pop` and `popWait`, with notifications, spurious wake-ups and timeouts, as a step
--   relation; Queue.Fifo has its invariant, and Queue.Refinement an abstract queue with an outcome
--   for each call.
-- * include/msglib/Message.h is the element of a mailbox's queue. Message has its two
--   constructors and `as`; the size is a uint16_t, so it is cut modulo 2^16.
-- * include/msglib/detail/Receiver.h holds up to three mailboxes for a label. Receiver has
--   `add` and `remove`, Receiver.Slots counts the slots of each mailbox.
-- * include/msglib/detail/MailboxData.h is what all mailboxes share: two pools over one
--   resource, and the receivers of each label. MailboxData has every operation;
--   MailboxData.Init is about `Initialize`.
-- * include/msglib/Mailbox.h has the calls of the clients. Mailbox has each of them as an
--   action on the world of all mailboxes: `send_message` for `SendMessage`, `send_signal` for
--   `SendSignal`, `receive` for `Receive`, `release_message` and `end_guard` for
--   `ReleaseMessage` and the end of a `MessageGuard`, the registrations and the two
--   `Initialize`. Mailbox.Messages, Accounting, Blocks, Sends and Signals are lemmas on them,
--   Mailbox.Session runs any sequence of calls, Mailbox.Truncated follows a message of 65536
--   bytes or more, and Mailbox.Registration sees the receivers of a label as `SendSignal` does,
--   as a quotient in which their order is forgotten. `SendMessage` serves the receivers in the
--   order of their slots, which matters when the blocks run out.
-- * include/msglib/detail/TimeConv.h turns durations and timevals into timespecs. TimeConv has
--   both conversions, TimeConv.Exact what they keep.
-- * include/msglib/detail/TimerManagerData.h keeps at most one timer for each label, and a
--   thread that handles their signals. TimerManagerData has `startTimer`, `cancelTimer`,
--   `Initialize`, `timerEvent`, `HandleSignals` and the destructor of TimerResources.
--   TimerManagerData.Api has interfaces for what is not code of the repository, the POSIX
--   timers and the memory that timers are allocated from, and Process instances of both.
--   Consistent is the invariant, Calls, Events and Failures are about the operations, Session
--   about any sequence of them, Handler about the loop of the handler thread. An exception that
--   leaves `startTimer` is a result, with the state as it then is.
-- * include/msglib/TimerManager.h is the clients' view of it: TimerManager, with the overloads
--   of `StartTimer` as functions of their own; Durations is about the one for durations, and
--   Instants about the one for points in time.
-- * include/msglib/Msglib.h initialises both parts: Msglib.
-- * example/mbox.cpp and example/timer.cpp have threads that register a mailbox, receive until
--   they are told to leave, and clean up. Worker has what they share: a script of such a
--   thread, its phases, a step of it for each call of the library, and runs of any threads
--   together with what main sends. Worker.Healthy, Calls, Owing and Moves are lemmas for the
--   invariant of Worker.Safety; Start begins at the initialization, Ends is about a thread that
--   is told to leave, Leaks about one that leaves a registration behind, and Untidy takes
--   programs with such threads until they are gone. Example.Mbox and
--   Example.Timer have the scripts of the five threads and the rest of both programs,
--   Example.Registered, Example.Started and Example.Begun what holds of them.
-- * Application is a program like example/timer.cpp as a whole. Its state has the mailboxes, the
--   timers, the signals of timers that are pending in the process, and where each thread stands;
--   its steps are those of the threads, the sends and the timers of main, a timer that expires,
--   and the handler thread that takes the oldest signal. Application.Timers is about the pointers
--   in the signals, Safety has the invariant, Start begins at `Initialize` of Msglib.h, and Ends
--   is about a timer that tells a thread to leave, and Untidy takes programs with threads that
--   leave registrations behind.
-- * sandbox/DiagResource.h, sandbox/pool.cpp and sandbox/queue.cpp try out the pool and the
--   queue on resources that log: Sandbox.DiagResource, Sandbox.PoolProgram and
--   Sandbox.QueueProgram, whose child Threads has the two threads of queue.cpp together.
-- Common has the shared vocabulary: lists over the native numbers, tests, and Common.State for
-- actions that may fault.
--
-- Conventions. A pointer to a block or a mailbox is a number, its address, and `none` for
-- nullptr. A value of a type T is its object representation, the list of its bytes, and
-- sizeof(T) is the length. A fault of Common.State stands for behaviour that C++ leaves
-- undefined: locking a held std::mutex, going through a null `m_resources`, using a mailbox or
-- a timer that is destroyed or was never constructed. An exception that the code catches is an
-- `Option` at the place where it is thrown. A call is one step: a session is a list of calls, and
-- Worker and Application interleave the calls of several threads. `SendMessage`, `SendSignal` and
-- the registrations hold one mutex, so they come one after the other; a `Receive` or a release
-- that comes between two rounds of the loop of another thread's `SendMessage`, which no mutex
-- prevents, is not a step here. A `Receive` that blocks leaves the world as it is.
-- The loops of the library are over the slots of a label, but for that of the handler thread,
-- which runs for a list of rounds. The loops of the programs that no list bounds take fuel:
-- `run_alone` of Worker.Ends and `run_thread` of Application.Ends take a number of steps, and
-- `producer` of Sandbox.QueueProgram a number of turns, for which one more than its count is
-- enough.
--
-- Not modelled: what the programs print by spdlog, getopt and std::stoul, whose results are
-- arguments; the tests; the std::pmr buffers behind the queue of a mailbox, taken to be large
-- enough for its capacity; the time that a call takes, and so when a timer expires: in
-- Application it may do so at any time, but has one signal pending at most. What the kernel does
-- with the pending signal of a timer that is deleted is left open, so the steps of Application
-- cancel no timer with a pending signal, and TimerManagerData.Events has what follows if one is.
-- A StartTimer that throws from the constructor of Timer is no step of Application either;
-- TimerManagerData.Failures is about it. The constructor of TimerResources does not initialise
-- m_timers: its contents are an argument of `new_resources`, which the results on Application,
-- Example.Begun and TimerManagerData.Session take to be all null. TimeConv computes without
-- bounds, so the overflow that duration_cast has for the longest durations of coarse periods is
-- left out. In sandbox/queue.cpp the storage of the queue is bounded; it is taken to be large
-- enough, so that emplace does not throw.
pub mod Common
pub mod Pool
pub mod Queue
pub mod Message
pub mod TimeConv
pub mod Receiver
pub mod MailboxData
pub mod Mailbox
pub mod Worker
pub mod TimerManagerData
pub mod TimerManager
pub mod Msglib
pub mod Application
pub mod Example
pub mod Sandbox
