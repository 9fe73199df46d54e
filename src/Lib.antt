-- ===== src/Lib.antt =====
-- Verification of pecs, an entity component system for game servers, written in Go.
--
-- A Manager owns sessions, one for each player or actor. A session holds at most one component of
-- each type, in an array by ComponentID with a bitmask of the identifiers in use; the identifiers come
-- from the manager's componentRegistry. Components refer to other sessions by Relation and
-- RelationSet. The Scheduler runs loops in batches that do not conflict by their AccessMeta, world by
-- world, over the sessions that pass a loop's masks, and pops due tasks from the taskQueue. On every
-- tick it also removes components that have expired.
--
-- The files and the code they model, with paths from the repository's root:
--   Prelude      shared lists, options, association lists, digits of numbers, Boolean tests
--   Bitmask      bitmask.go: the mask of 256 digits over four 64-bit words
--   Registry     component.go: componentRegistry; Race interleaves goroutines in `register`
--   Session      component.go and session.go: Add, AddUntil, Get, Has, GetOrAdd, Remove, expirations,
--                canRun and close. Components, Expiry and Closing hold the operations
--   Sessions     manager.go: the indexes of sessions by handle, UUID, name, XUID and world
--   Relation     relation.go: Relation, RelationSet and the clearing of relations
--   PeerSet      peer.go: PeerSet, whose updates by compare-and-swap interleave
--   TaskQueue    task.go: the binary heap of tasks, its compaction and PopDue
--   Access       meta.go: AccessMeta, PrepareSets and Conflicts
--   Scheduler    scheduler.go and stage.go: ShouldRun, MarkRun, rebuildBatches; Ticks runs batches
--   System       tags.go and meta.go: parseTag, hasTag and analyzeSystem, in Tags, Walk and Analyze
--   Tasks        task.go and scheduler.go: Schedule and its kin in Scheduling, the execution and the
--                repetition of tasks in Execution
--   PeerCache    cache.go: peerCache, with resolveMany in Batches
--   Inject       inject.go: injectSystem and zeroSystem, in Turns, and their helpers
-- A component's definitions stand in the file of its name, or in the child modules named above; the
-- other children hold what is proved, and Tests hold runs and the theorems at concrete inputs.
--
-- How the code is read. A pointer, a reflect.Type, a session, a task and a world are numbers, a time
-- is a number of nanoseconds since 1970, and a duration one that is not negative. What a mutex
-- guards is one step, and each operation takes a state and returns the next. An operation that may
-- fail or panic returns an Option or a data type of its outcomes. An unsigned counter wraps as its
-- width says.
--
-- Hooks (Attach, Detach), event handlers, subscriptions and the player's connection are a Host, a
-- record of functions on states that may do anything; where a theorem needs that they keep an
-- invariant, or leave components alone, or do not open what is closed, it says so (IsHost, IsQuiet,
-- IsFinal). Go's sort is a parameter that permutes a list, and so are the orders in which goroutines
-- that fetch at once for peerCache store what they fetched, and in which the jobs of the tasks of a
-- stage are done.
--
-- A Go type is a term of GoType, and what reflection says of it the record Reflection. The memory of a
-- system's instance is seen by offset, as pointers, slice headers and bytes; a system's struct has its
-- fields apart, which a theorem that needs it says (Apart).
--
-- Fuel. `up_loop` gets i + 1, as the parent of a place lies below it; `down_loop` n + 1, as a child
-- lies above; `pop_due_loop` one more than the length of the heap, as each turn pops; `fill_batches`
-- the number of loops, as each round places the first. The theorems on these operations show that
-- they end with a result, so that the fuel is enough.
--
-- Not modelled: sharedCache, which repeats peerCache for shared entities, and the interleaving of calls
-- of a cache; Shared and SharedSet, events and handlers, bundles, providers and the builder; the worker
-- pool and the ticker; the libraries dragonfly and uuid.
pub mod Prelude
pub mod Bitmask
pub mod TaskQueue
pub mod PeerSet
pub mod Access
pub mod Scheduler
pub mod Registry
pub mod Session
pub mod Relation
pub mod Sessions
pub mod System
pub mod Inject
pub mod Tasks
pub mod PeerCache
