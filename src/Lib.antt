-- ===== src/Lib.antt =====
-- Argus is a network monitor: services are tested on a schedule, their statuses move up a tree of
-- groups and aliases, and changes send notifications. This library models the core of the Go
-- sources under src/argus, with functions from state to state, and proves what the parts promise.
--
-- The parts and their files, with the packages that they model:
--
-- - Text, Dict: texts as lists of code points, what the packages strings and unicode do to them,
--   and maps.
-- - Status, Status/Gravity: src/argus/argus/status.go, gravity.go, darpmode.go, bool.go.
--   Status/Names has the theorems.
-- - Schedule: src/argus/argus/schedule.go. Schedule/Lookup has the theorems.
-- - Tags: src/argus/argus/tags.go. Tags/Words has the theorems.
-- - Monel/State: the types of src/argus/monel/monel.go and the package's tables. Pointers are
--   numbers and `elem` is the heap.
-- - Monel/Children: Find, AddChild, AddParent, and the children that groups and aliases report
--   (src/argus/group, src/argus/alias).
-- - Monel/Aggregate: calcAggrStatus of src/argus/monel/transition.go; its children Counts, Down,
--   Up, Vote and Range have the theorems.
-- - Monel/Determine: determineStatus, checkDepends, checkOverride and determineSummary.
--   Monel/Transition: Update, ReUpdate, UpUpdate and all that they call. Its children Overall,
--   Notice and Alarm have the theorems.
-- - Monel/Stats: src/argus/monel/stats.go; Monel/Stats/Accounts has the theorems.
-- - Monel/Override: src/argus/monel/override.go. Monel/Tree: names, links and removal in
--   src/argus/monel/monel.go, and resolveDepends.
-- - Monel/Tasks: the handlers and the goroutines as a step relation; Monel/Invariant and its
--   children prove what every step keeps.
-- - Sched: src/argus/sched/sched.go, its jobs and their times; Sched/Mainloop: its schedule.
--   Sched/Timing, Queues, Buckets, Conserved, Ends and Dispatch have the theorems.
-- - Darp: src/argus/darp/status.go. Darp/Hosts, Tally and Weigh have the theorems. Darp/States:
--   darp.go, with its theorem in Darp/States/Heard.
-- - Service: src/argus/service/service.go, with the theorems in Service/Results, Retries, Running
--   and Delay. Service/Compare (testAndCompare), Service/Calc (calcMask, rateCalc and what
--   getValue calculates) and Service/Check (getValue, CheckValue): src/argus/service/testing.go.
--   A System holds a service with the elements, the scheduler and the hosts, so that a result
--   runs through the code of Monel and Sched.
-- - Service/Hwab: src/argus/service/hwab.go, the prediction of values, with the steps of a window
--   in Windows, the smoothing of the buckets in Smooth, and what they keep in Keeps and Shaped.
-- - Notify: src/argus/notify/notify.go, queues.go and method.go; Notify/Ack: ack.go;
--   Notify/Worker: its worker's loops and new.go. Notify/Active, Listed, Sending, Lost, Entry,
--   Told, Timely and Promptly have the theorems.
-- - Encode: src/argus/argus/encode.go. Encode/Decode has the theorems.
-- - Expr: src/argus/expr/expr.go, the table of operators; Expr/Tokens (tokenize), Expr/Parse
--   (parse), Expr/Machine with Values and Groups (RunExpr, the operators, the aggregates of
--   groups) and Expr/Calc (Calc, RunExprF). Expr/Grammar says what an expression means;
--   Expr/Compile and the children of the others have the theorems.
-- - Construct: src/argus/construct/reader.go, how lines are joined and cleaned; Construct/Lines:
--   the open files and NextLine. Quoted, Pending, Turns, Settling and Inclusion have the
--   theorems.
-- - Resolv: the types of src/argus/resolv; Resolv/Cache: cache.go; Resolv/Address: ip.go;
--   Resolv/Queries and Resolv/Replies: what a worker of resolv.go sends, and what replies and
--   timeouts do. Their children have the theorems.
-- - Graph: src/argus/graph/graphd/graphd.go, the header, its sections and Add; Graph/Get: Get;
--   Graph/Cbuf: cbufio.go; Graph/Raw: files as bytes. Graph/Cbuf/Circle, Rounds and Reading have
--   the theorems of the reader, and Graph/Kept with its children those of what a file keeps.
-- - Pack: src/argus/argus/pack.go; Pack/Reads and Range have the theorem.
-- - Bits: src/argus/argus/hashdir.go and src/argus/lfsr/lfsr.go; Bits/Letters has the theorems.
-- - Timespec: src/argus/argus/timespec.go, Timespec.
-- - Examples: the theorems at concrete inputs.
--
-- A handler that runs under an element's lock is one function, and so one step; the locks
-- themselves, and what two handlers that hold different locks see of one another midway, are not
-- modelled. A `go` statement adds a task to the state, and a step may run any task. Calls into
-- the package notify and timers are recorded in the state. Floating point numbers are a type with
-- its operations, of which a theorem that needs a law says so. The clock, the local calendar and
-- whether notify.New keeps a notification are arguments.
--
-- Bounds: numbers are natural numbers, or integers where the clock may step back; Go's 64-bit
-- wrap-around is out of reach of times and counts and is not modelled. IncludesTag takes a round
-- per byte at most, so its fuel is one more than the length. tokenize has the text's length as
-- fuel, which is shown to be enough. The walk through a group takes its fuel as an argument; it
-- is shown to be enough where no group contains itself and no alias is left to be resolved.
-- nextqid takes its fuel from the configuration, and a worker that uses it up takes no step. The
-- loop of ReScheduleSamePrio has a round for every second of the clock, and is shown to have
-- none. NextLine takes its fuel as an argument, and is shown to need a finite amount where the
-- inclusions end. Read of the circular reader has a round more than bytes to read as fuel, which
-- is shown to be enough. AddAt's loop has a round for each whole window that is over; where it
-- panics, for a window that began long before a reset, it gives nothing. ovPropDown recurs down
-- the tree; its fuel is an argument of the handlers, and the invariant holds for any. An index
-- past an array, or a read through nil, is a panic in the source; the theorems that need an index
-- in range say so by their hypotheses.
--
-- Not modelled: network and file access, the web pages, configuration by reflection, log output
-- and metrics.
pub mod Prelude
pub mod Text
pub mod Dict
pub mod Status
pub mod Schedule
pub mod Tags
pub mod Monel
pub mod Sched
pub mod Construct
pub mod Graph
pub mod Pack
pub mod Darp
pub mod Service
pub mod Notify
pub mod Encode
pub mod Expr
pub mod Resolv
pub mod Bits
pub mod Timespec
pub mod Examples
