-- ===== src/Lib.antt =====
-- ez-a-sync lets Python code be called both synchronously and asynchronously. Around that it keeps
-- asyncio primitives of its own, and this library models those.
--
-- Files, by the part of the program (paths from the repository's root):
--   Prelude            lists, numbers, Python values, exceptions as values, `Exec` for code that
--                      changes a state and may raise
--   Asyncio            what the program uses of the standard library: `asyncio.Queue`, futures
--   Queue              a_sync/primitives/queue.py, `Queue`: the bulk reads get_all, get_all_nowait,
--                      get_multi, get_multi_nowait
--   Processing         a_sync/primitives/queue.py, `ProcessingQueue`: put_nowait, _ensure_workers,
--                      _worker_coro, close; callers and workers as steps in any order
--   Modifiers          a_sync/a_sync/modifiers: what each decorator function accepts and makes
--   Modifiers.Manager  the same directory's manager.pyx: how the modifiers of a function stack
--   Modifiers.Defaults a_sync/a_sync/config.py: the modifiers of the environment
--   Executor           a_sync/executor.py: submit in both modes, _copy_future_state
--   Executor.Pool      a_sync/executor.py: the threads of PruningThreadPoolExecutor
--   TaskMapping        a_sync/task.py: the dictionary of tasks
--   TaskMapping.Loops  a_sync/task.py: __aiter__, all, any, max, min, sum
--   AsyncFuture        a_sync/future.py: ASyncFuture in a store, its operators, `_await`
--   Dispatch           a_sync/a_sync/function.pyx, _flags.pyx, _kwargs.pyx: calls in the two modes
--   Dispatch.Methods   a_sync/a_sync/method.pyx: bound methods
--   Dispatch.Modified  a_sync/a_sync/_descriptor.pyx: the function that a bound method runs
--   Dispatch.Classes   a_sync/a_sync/base.pyx: the default mode of a class
--   Dispatch.Instances a_sync/a_sync/abstract.pyx, _meta.py: modes of instances, singletons
--   Semaphore          a_sync/primitives/locks/semaphore.pyx: Semaphore, its waiters and their tasks
--   Counter            a_sync/primitives/locks/counter.pyx, event.pyx: CounterLock
--   PrioSemaphore      a_sync/primitives/locks/prio_semaphore.pyx: PrioritySemaphore
--   Gather             a_sync/asyncio/igather.pyx, gather.pyx: cigather, gather_mapping
--   Iter               a_sync/iter.pyx: iteration, ASyncFilter, ASyncSorter
--   Yielding           a_sync/utils/iterators.py: as_yielded, exhaust_iterators; it puts into the Queue
--                      and hears of the iterators by the done_callback of Gather
--   Smart              a_sync/primitives/queue.py: SmartProcessingQueue; a_sync/_smart.pyx: shield
--   Cached             a_sync/a_sync/property.pyx: the loader of a cached property
--   Persisted          a_sync/asyncio/create_task.pyx: the tasks that outlive their references
--   Decorator          a_sync/a_sync/decorator.py: a_sync; modifiers/__init__.py: the modifiers of a
--                      class; config.py: get_default_executor
--
-- State and time. A coroutine is split at its awaits: each step is the code between two awaits, and
-- a schedule is a list of such steps. Futures live in a store that callers and workers share. What
-- other tasks put while a reader is suspended is a list of batches.
--
-- Fuel. `drain` (get_all_nowait) has one round more than there are items; get_multi takes its fuel as
-- an argument, and its theorems give the rounds that are enough; `await_future` on the future i needs
-- more fuel than i, since operands come before what is built from them.
--
-- Third parties. AsyncLimiter and alru_cache are parameters of the modifiers, and
-- _convert_future_exc of asyncio one of the executor; the outcome of a user's
-- function, and the order in which the event loop ends tasks, are inputs. A task that is asked to
-- cancel counts as cancelled; which of two operands ends first is a parameter. A TaskMapping has no
-- `concurrency` here, and its keys are numbers, one for each class of equal keys.
--
-- Modes. A call of a function has its outcome given; a coroutine that it returns is that outcome, to
-- be had when it is awaited. The values of flags are objects that C code reads as true or false.
--
-- The semaphore. Its value wraps at 2^64, as `unsigned long long` does. A run is a list of events: a
-- call of `acquire`, the start of its coroutine, a release by a program that releases only what it
-- holds, the cancellation and the resumption of a waiting task. An event that cannot happen changes
-- nothing.
--
-- The other locks. Futures are numbers in a store. A heap is the sorted list of its items; `order` is
-- the order in which `set.pop` takes the items of a set. A `long long` or an `int` stands as the
-- number that it is above its least value, since the code only compares it.
--
-- Gathering. How each future ends is given, and in which order they end.
--
-- Iterators. An iterator is the list of what it gives and the exception that ends it, if one does. A
-- key is a number, and a coroutine function for a key returns. `materialized` takes fuel; more than
-- there are items is enough. A run of `as_yielded` is a list of steps of its iterators, of the task
-- that gathers them and of the generator; a task that has to wait makes no step.
--
-- The smart queue. The futures of the jobs and the shields of the callers are numbers in two stores; a
-- run is a list of calls of `put_nowait`, jobs taken and ended, callbacks, cancellations, and
-- collections of futures that nothing refers to. The heap may give out any job, so that what is stated
-- holds for every order. A function that raises no `Exception` breaks its worker.
--
-- Cached properties. The loader of one instance, without a setter and without deletion, in a run of
-- what its callers, the lock and the task of the getter do. The lock goes to any caller that waits for
-- it; what runs between two awaits is one step. The copy that is raised for an exception stands for it.
--
-- Persisted tasks. A run is a list of calls of `create_task`, ends of tasks, wrappers that go on and
-- callbacks. Whether an exception is an instance of Exception is a parameter.
--
-- Not modelled: the priority queues and the order of the smart queue, smart tasks, the descriptors of
-- properties, generator functions and as_completed; besides, log messages, names,
-- reprs, tracebacks and garbage collection, but for the effect of a dropped future on a queue that
-- holds a weak proxy.
pub mod Prelude
pub mod Asyncio
pub mod Queue
pub mod Processing
pub mod Modifiers
pub mod Executor
pub mod TaskMapping
pub mod AsyncFuture
pub mod Decorator
pub mod Dispatch
pub mod Semaphore
pub mod Counter
pub mod PrioSemaphore
pub mod Gather
pub mod Iter
pub mod Yielding
pub mod Smart
pub mod Cached
pub mod Persisted
