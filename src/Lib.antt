-- ===== src/Lib.antt =====
-- Verification library of the ECU architecture evolution project: the table scheduler simulator
-- under OS_evolution/Task Schedule (C, Linux) and the two kernel sketches under OS_evolution.
--
-- The program and the files that model it
--
-- The simulator loads tasks (scheduler.c: load_tasks), creates a scheduler for each CPU
-- (simulator.c, scheduler.c), and the table scheduler (table_scheduler.c) groups the tasks by
-- schedule table and lays out the expiry points of each table over one duration, the least common
-- multiple of the periods. Each table has a timer. A timer event makes process_tick move the
-- table to its next expiry point, arm the timer anew and tell the scheduler thread, which
-- enqueues the tasks of the expiry point in the ready queue, an intrusive list of list.h, and
-- runs the first.
--
-- Below, inc/ and src/ are those of OS_evolution/Task Schedule.
--
-- Task.antt: the data model of inc/scheduler.h and inc/simulator.h.
-- ListHead.antt: inc/list.h, the circular doubly linked list, in a memory of nodes by address; a
--   NULL dereference is `none`. Ring.antt says which sequence a list stands for; Add.antt and
--   Del.antt prove the functions against it.
-- Hlist.antt: the hash lists of inc/list.h and delete_all_task_info of src/table_scheduler.c, in
--   a memory where a place is the head or the next field of a node, and where a write to what has
--   been freed has no result. Chain.antt says which sequence a list stands for; Add.antt,
--   Del.antt, RoundTrip.antt and Clear.antt prove the functions against it.
-- ReadyQueue.antt: task_enqueue_check and task_dequeue of src/table_scheduler.c over the sequence
--   of queued tasks, and the loop of table_scheduler_expiry_point_enqueue. exit(-1) is the
--   outcome `exit`. Order.antt has the order of the queue, Invariant.antt its invariant,
--   Calls.antt the theorems on the calls, Keys.antt is on the keys that the order goes by.
--   Linked.antt has the same functions over the memory of ListHead, and Linked/Refinement.antt
--   that they agree.
-- ScheduleTable.antt: the data of inc/table_sched.h. Duration.antt: the GCD and LCM macros.
--   Build.antt: table_scheduler_init, with Build/Total.antt on when it comes through,
--   Build/Periods.antt on what is due in each cycle and Build/Gaps.antt on how far the expiry
--   points are apart. Timer.antt: set_timer, start_timer, table_scheuler_update_timer and the
--   index of the expiry point that is served.
-- TaskLoading.antt: load_tasks of src/scheduler.c, with Placement.antt on where the tasks end up.
-- Simulator.antt: src/simulator.c, and create_scheduler of src/scheduler.c. What makes a
--   scheduler for a CPU is a parameter, since it starts threads. Lifecycle.antt follows the
--   singleton from its creation to its end.
-- SchedulerThread.antt: process_tick of src/table_scheduler.c, and of src/scheduler.c the inner
--   loop of scheduler_thread up to switch_to, disable_timing_preempt, enable_timing_preempt and
--   the entry of scheduler_wait_resume, over the state that the two threads share. Pass.antt has
--   what one pass of the loop picks, Tick.antt what a tick does between two passes, Served.antt
--   which expiry point a tick serves, Activation.antt which tasks the ticks of a built table make
--   due and when. Contexts.antt has entry, terminate, switch_to and interrupt_task with the
--   signal masks that swapcontext saves, and Preempted.antt what an interrupt does to them.
--   System.antt has the two threads as one step relation, with where the scheduler thread stands,
--   and init_scheduler gives its start; System/Invariant.antt has what holds between any two
--   steps and System/Safety.antt what follows. The read of the timer descriptor is left out.
-- EventTable.antt: register_event_table, unregister_event_table and the dispatch of
--   table_scheduler_schedule. Epoll.antt: table_scheduler_create_epoll and
--   table_scheduler_destroy_epoll, with the answers of the system calls as a parameter.
--   Linked.antt has the event table over the memory of Hlist, and that it agrees with the table
--   of lists. TimingThread.antt: schedule_timing_thread and bind_cpu of src/scheduler.c.
--   WakeUp.antt: table_scheduler_wake_up.
-- TableScheduler.antt: table_scheduler_create, table_scheduler_start and table_scheduler_destroy
--   of src/table_scheduler.c, with init_scheduler, deinit_scheduler and the creation of the
--   threads of src/scheduler.c. What they acquire and release is a log in order, next to the
--   tables of ScheduleTable.Build and the events of EventTable.Epoll. Track.antt follows a
--   resource through a log, Live.antt has where each is held, Balance.antt is on creation and
--   destruction, Start.antt on the start of the timers.
-- AutosarDemo.antt: OS_evolution/AUTOSARdemo.c. Stack.antt is on task_create and its stack frame,
--   Choice.antt on schedule, Ticks.antt and Slices.antt on SysTick_Handler, Blocked.antt on
--   os_delay. The assembler routine switch_context is a parameter, of which the theorems assume
--   that it takes over what schedule chooses.
-- RtosDemo.antt: create_task and scheduler of OS_evolution/RTOSdemo.c.
--
-- How C is read
--
-- Numbers are the native ℕ, `priority` is a ℤ. A negative cpu, period or table id indexes out of
-- bounds in the source and is not modelled. Overflow of an `int`, a division by zero and a read
-- out of bounds have no result (`none`). malloc is taken to succeed where the source does not
-- look at its result. printf and the clock readings that are only printed are left out.
--
-- Bounds and fuel: the walk over the linked ready queue takes a number of rounds, and one more
-- than the length of the queue is proved to be enough. The loops over times, tasks and tables are
-- recursion on the rounds left or on the list. The loops over hash lists take a number of rounds
-- too, and one more than the length of the list is proved to be enough. GCD has the eight levels
-- of the macro. No fuel is needed elsewhere: the loops of the event table, of load_tasks and of
-- the two kernels run over their number of rounds.
--
-- A context that swapcontext saves is the place where it goes on and its signal mask. That
-- swapcontext restores the mask, that a handler runs with its signal blocked and that its return
-- restores the mask is taken from POSIX. Both threads of a scheduler are taken to be bound to its
-- processor, so that the timing thread waits while the scheduler thread has the highest priority.
--
-- The log of a table scheduler keeps the mutex, the conditions and the memory apart from what
-- they hold. That a creation waits for the scheduler thread to leave the state INIT, and that a
-- destruction waits for both threads, is taken to come to an end; what pthread_create answers is
-- a parameter.
--
-- Not modelled: what the C library and the kernel do behind their calls (threads, signals, epoll,
-- timerfd, user contexts, affinity), and the parts that the files above do not name.
pub mod Prelude
pub mod Task
pub mod ListHead
pub mod Hlist
pub mod ReadyQueue
pub mod ScheduleTable
pub mod TableScheduler
pub mod TaskLoading
pub mod Simulator
pub mod SchedulerThread
pub mod EventTable
pub mod RtosDemo
pub mod AutosarDemo
