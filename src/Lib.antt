-- ===== src/Lib.antt =====
-- A model of CoRTOS, a small real-time kernel for several cores, and what holds of it.
--
-- Each core has a scheduler (src/kernel/scheduler.hpp, scheduler.cpp): a current thread, an idle
-- thread, a matrix of ready threads, one intrusive list for each priority with a bitmap of the lists
-- in use, and an inbox into which other cores post the threads that it is to make ready. The inbox
-- is a ring buffer for many producers and one consumer (src/kernel/mpsc_ring_buffer.hpp). The kernel
-- (src/kernel/kernel.cpp) pins each thread to a core and sends each wake-up to the thread's own core
-- or to its inbox. Threads block on waitables (src/kernel/waitable.cpp) with wait nodes from a pool
-- of their own (src/kernel/wait_subsystem.hpp). The time drivers (src/time) run callbacks at
-- deadlines. Under all of it lies a port; that of Linux (src/port/linux_boost/port_linux_boost.cpp)
-- simulates each core by a thread of the host.
--
-- Which file models which part:
--   Base        Boolean tests, lists, bits of machine words, and the monad of steps that may fault
--   Config      config/config.hpp
--   Intrusive   the `next` and `prev` members and the ends of a list: ThreadReadyQueue of
--               src/kernel/threading_subsystem.cpp, and the queue of src/kernel/waitable.cpp
--   Threads     ThreadControlBlock of src/kernel/threading_subsystem.hpp, a store of members
--               indexed by address
--   Ready       Queue is ThreadReadyQueue and Matrix is ThreadReadyMatrix, of the same files
--   Mpsc        MpscRingBuffer; Fifo is the bounded FIFO that it is compared with, and Shared the same
--               code run by any number of producers and one consumer
--   Scheduler   Scheduler, one definition for each member function under its own name
--   Kernel      Kernel; Pinning is the load balancing, Wakeups is set_thread_ready, Handles the
--               class Thread, Affinity its mask of cores, and Calls what a core enters by
--   Layout      src/kernel/align.hpp, and StackLayout of src/kernel/threading_subsystem.cpp
--   Wait        Nodes is WaitNode, Pool is WaitNodePool, Group is WaitGroup, Waitable is the queue,
--               Refs is src/kernel/waitable_utilities.hpp, and Block the blocking of
--               src/kernel/threading_subsystem.cpp, wake_thread, the signals and a thread's end;
--               Visit is for_each_waiter, and Until is wait_for_any, wait_until and join of
--               src/kernel/kernel.cpp; of Block, Prepare is what a thread that blocks leaves,
--               Teardown what one that is woken leaves, RoundTrip the one after the other, and
--               Wake a signal
--   Spinlock    src/kernel/public_headers/spin_lock.hpp, as cores that share a lock
--   Function    src/kernel/public_headers/function.hpp: the functions and the heap are a store
--   Time        Types is src/time/public_headers/time.hpp, Slots the loops that
--               src/time/periodic/time_driver_periodic.cpp (Periodic) and
--               src/time/tickless/time_driver_tickless.cpp (Tickless) share, and Simulation is
--               src/time/simulation/time_driver_simulation.cpp
--   Linux       src/port/linux_boost/port_linux_boost.cpp: Interrupts is the critical sections, Clock
--               the time port, with the tickless driver on it in Clock/Tickless, Cores the cores and
--               the calls between them, Idle the sleep of a core and its wake-up, Shutdown the end of
--               a run, and Panic the dump of a failed line
--   Tests       concrete states, and the theorems applied to them
--
-- An operation takes the state that it reads and gives back the state that it leaves; an operation
-- with an assertion gives an Option, and `none` is a failed assertion, a null dereference or
-- `__builtin_unreachable`. Machine words wrap as in the source, and a counter that the theorems keep
-- below the sign bit says so. Capacities are those of the source: 64 requests in an inbox, 8 wait
-- nodes, 31 priorities, 16 slots.
--
-- Fuel bounds these loops: `size` of a ready queue needs as many steps as the queue has members,
-- `for_each_waiter` as many as the queue has nodes, and `pick_best` one more; `drain_inbox` and the
-- ring's destructor take one round more than the ring holds items, and `signal_all` one more than
-- it wakes threads. The rounds of a push are a list that says where its weak compare-exchange fails.
--
-- Mpsc/Shared, Spinlock, Linux/Idle and Linux/Shutdown interleave any number of threads: a data
-- type of moves has a constructor for each step of a thread, and Reach is what a start leads to. A
-- liveness result there bounds the steps of every run and shows that some thread can move until the
-- end is reached. In the other models each operation is one step: a locked section or one with
-- interrupts disabled has no counterpart. The loop of the clock's compare-exchange takes what other
-- cores do before each exchange as a list, and wait_until what the other threads do at each yield and
-- between its look without locks and the first one under them.
--
-- Not modelled: the contexts of the port, which are fibers of Boost, and their creation and
-- switching; its instructions for a breakpoint, a pause and the stack pointer; the functions of
-- namespaces kernel and this_thread that are one call of another; and overridden on_thread_removed
-- hooks of waitables.
pub mod Base
pub mod Config
pub mod Intrusive
pub mod Threads
pub mod Ready
pub mod Mpsc
pub mod Scheduler
pub mod Time
pub mod Wait
pub mod Kernel
pub mod Layout
pub mod Spinlock
pub mod Function
pub mod Linux
pub mod Tests
