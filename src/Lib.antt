-- ===== src/Lib.antt =====
-- fyer-kit: the packages queue, slice, set, pool, pool/connlimit, workpool and internal/queueservice of a Go
-- toolkit.
--
-- Queue models package queue. Queue/Types has the errors, events, options and statistics that its
-- files share (queue/errors.go, queue/event.go, queue/options.go, queue/stats.go); Queue/Fifo is
-- what the interface in queue/queue.go promises, as a list with a capacity and a flag. Queue/Blocking
-- is queue/blocking_queue.go: the ring buffer, its head, tail and size, and each method as a function
-- of the state, with the events that it emits and the signals that it sends to the two condition
-- variables kept as logs in the state, newest first. Its child Wait has Enqueue and Dequeue. A
-- method that waits gives the mutex up: the environment is then a list of wake-ups, each with
-- its cause (the timer, the context, a periodic tick) and the calls that other goroutines made before
-- the waiter had the mutex again. A call whose list of wake-ups is used up is still waiting; the
-- lists are as long as one likes, so they are no bound on the wait. A nil context on which Done is
-- called is a panic. So is a second close of the channel between a waiting Enqueue and the goroutine that
-- watches its context: whether the context ends so that both close it is a part of the wake-up. Not modelled: Utilization, which is a floating-point number; the registration of listeners.
-- Queue/NonBlocking is queue/nonblocking_queue.go: its methods as they run alone, and the steps of Enqueue (claim a
-- slot, fill it, count it), which Queue/NonBlocking/Race interleaves. Its indices and sizes of type int32 are
-- numbers, and int32() of a length or a capacity is written out; a growing slice stays below 2 ^ 31 under the
-- bounds that the theorems name.
-- Capacities and timeouts are numbers, after WithCapacity and its like have cut negative ones to 0;
-- counters of type uint64 wrap at 2 ^ 64.
--
-- ConnLimit models pool/connlimit/limiter.go. ConnLimit/Window is WindowLimiter, whose readings of
-- the clock are arguments, in nanoseconds; each limiter takes its own. ConnLimit/Adaptive is AdaptiveLimiter over any two limiters, where a
-- limiter is a state with the operations of the interface Limiter. TokenBucketLimiter is not modelled: it
-- passes every call on to golang.org/x/time/rate.
--
-- Slice models package slice. Slice is slice/slice.go, Slice/Atomic is slice/atomic.go, Slice/Iterator is
-- slice/iterator.go and Slice/Transaction is slice/transaction.go. Every method holds the slice's lock
-- throughout, so it is a function of the items. The spare capacity of Go's slices is not modelled.
--
-- Set models package set. Set/HashSet is set/hashset.go: the keys of the Go map are a list without
-- repetition, and the order in which a range passes them is a parameter, of which only that it passes
-- each key once is supposed. Set/SortedSet is set/sortedset.go: such a map with the slice of the same keys in
-- order; the comparator, sort.Slice and sort.Search are parameters, with what their documentation
-- says of them as hypotheses. The other Set of an operation is what it answers: Contains, the elements of
-- ForEach, and Size. defaultLess, which looks at dynamic types, is not modelled.
-- Set/ConcurrentSet is set/concurrentset.go: calls of one set by any number of goroutines, as steps that a schedule
-- orders, under a lock that behaves as package sync documents sync.RWMutex. Set/ConcurrentSet/Nested has the methods
-- that take the lock of a second ConcurrentSet inside their own.
--
-- Pool models package pool. Pool/Types has pool/interface.go and pool/options.go; Pool is pool/pool.go without Get
-- and NewPool, which are in Pool/Get. A connection is its identity, its times and its state. What a
-- call is told by the clock, the connections, the factory and OnCreate is its input; what other goroutines do
-- while it waits, dials or sleeps is a function on the pool, and what wakes it is a list as above; cleanIdleConnections
-- takes a reading of the clock for each of its rounds. The counters of
-- type int are pairs of the numbers of increments and decrements. The other modules under Pool keep the books:
-- which connections are out or idle, and what the counters say of them. Not modelled: the ticker of startCleaner,
-- and what two calls do to each other between the points where they give way.
--
-- Pool/Adapters models pool/adapters, one module for each kind of connection: Http, Redis, Grpc, and Sql with SqlFactory.
-- Pool/Adapters/Helpers has the functions of all four files that get a connection of a pool, use it and put it
-- back. What the clients of net/http, go-redis, grpc and database/sql answer is an input, and the calls that end
-- something there are kept as counts or as a log, newest first. Not modelled: the values that only those packages read.
--
-- WorkPool models package workpool. WorkPool/Config is workpool/options.go, WorkPool/Task is workpool/work.go, where the
-- closing of a task's channel is counted; WorkPool/TaskQueue is workpool/queue.go with the loops of
-- container/heap, and WorkPool/Workers is workpool/workpool.go: the goroutines are a list in the state, and each turn
-- of one is a function. WorkPool/Run makes them, Shutdown's parts and the callers' calls into a list of actions.
-- WorkPool/Metrics is workpool/metrics.go, whose rates stay quotients, and WorkPool/Measured has the calls that
-- Submit and a worker make of it for tasks. Not modelled: the calls for the gauges of the workers, the log, and
-- floating-point numbers: whether the queue is loaded and the workers idle is an input of the scaling.
--
-- Service models internal/queueservice. Service/Items is the splitting and joining of items in
-- internal/queueservice/serilizer.go; Service/InMemory is internal/queueservice/inmemory.go, a map from names to queues
-- of either kind; Service/Contract is the same map over the lists of Queue/Fifo. Not modelled: the texts and the JSON
-- of serilizer.go.
--
-- Prelude has the numbers, lists and tests that the parts share. Loops are structural recursion, over a
-- list or over the number of rounds left, so no fuel is needed.
--
-- Not modelled: the command line under cmd.
pub mod Prelude
pub mod Queue
pub mod ConnLimit
pub mod Slice
pub mod Set
pub mod Pool
pub mod WorkPool
pub mod Service
