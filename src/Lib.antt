-- ===== src/Lib.antt =====
-- mikroscope: the agent that samples a router's kernel counters, and what reads its samples.
--
-- The program has two halves. On the router the agent (internal/agent) wakes at a fixed rate, reads
-- the kernel's files (internal/procfs), turns two consecutive reads into a sample of differences
-- (internal/sample), evaluates its trigger conditions against the sample, pushes it to a ring of the
-- last samples and, when the window of a fired trigger is complete, retains it as a capture within a
-- byte budget. Elsewhere a collector pulls the ring over HTTP, derives rates and detections from the
-- samples (internal/derive), and hands them to sinks, each of which queues what it writes to its
-- store; a report on a window of samples (internal/health) says what is wrong with the router's ports.
-- This development models the first half, from the bytes of a kernel file to the ring, and of the
-- second the pull loop, the derive stage, the health report, the queue of the sinks, and the removal of
-- what they left in a store (internal/teardown).
--
-- Files, and the code they model:
--   Common         numbers, lists, byte strings and maps that the other modules share
--   Procfs         internal/procfs: the structs (Procfs/Types), and `nextField`, `parseUint` and
--                  `parseHex` of procfs.go (Procfs/Numbers). Lines holds the loops over a file's lines
--                  and a line's fields; Cpus and Columns the tables with a row or a column for each
--                  core (stat.go, softnet.go, softirqs.go, interrupts.go, `ParseSchedstat`); Keys and
--                  Named the files of keys and numbers (vmstat.go, meminfo.go, slabinfo.go, the cgroup
--                  files of self.go); Devices vmstat.go's `ParseDiskstats`, yaffs.go and buddyinfo.go;
--                  Single loadavg.go, pressure.go, self.go and `ParseKmsgRecord`; Trim the small
--                  functions on bytes; Text and Ports ports.go and `KmsgKind`. The child modules of
--                  Numbers, Lines, Keys and Single, and Fuel and Tables, are proofs.
--   Sample         internal/sample/sample.go: Sample/Counter is `sub` and `isWrap32`, Sample/Rows the
--                  sources matched by position, Sample/Irqs `topIRQs` and `irqRow`, Sample/Vm
--                  `vmDelta`, Sample/Discovered `flashDelta`, `diskDelta`, `perfDelta` and the slab
--                  levels, Sample/Delta `Delta` itself. Sample/Laws and Sample/Ranking are proofs.
--   Agent/Ring     internal/agent/ring.go: `NewRing` is new_ring, `Push` is push (its part under the
--                  lock is store), `Oldest`, `Since` and `Tail` are oldest, since and tail. The
--                  child modules are proofs: View gives the ring's contents as a list.
--   Agent/Captures internal/agent/capture.go and samplerstats.go: Types, Parse (`ParseTriggers`,
--                  `parseCondition`), Evaluate (`evaluate` and the functions it calls), Fire
--                  (`fire`, `Fire`, `Observe`), Collect (`AfterPush`, `Finalize`, `collect`, `List`,
--                  `Get`, `Delete`, `Served`, `MarkersBetween`, `Stats`); the other child modules are proofs.
--   Agent/Source   internal/agent/source.go and discovered.go: `Read` is read and `readDiscovered`
--                  read_discovered; System holds `readSystem`, `readKernel`, `readOptional` and
--                  `readSelf`, Filter the comparisons and readers of discovered.go, Types the state and
--                  the files. `ReArm`, `SetFloors` and `SetFloorOverride` keep their names. Held and
--                  Heartbeat are proofs.
--   Agent/Sampler  internal/agent/sampler.go: `Run` as a step function on events.
--   Agent/Server   internal/agent/http.go: `snapshotSince` as a list of lines; Order is a proof.
--   Health         internal/health/health.go: `Analyze` is analyze, with its tally of the records and
--                  the drops of a window. The child modules are proofs.
--   Derive         internal/derive/derive.go: Types is the state of the stage, Window the trailing
--                  baselines and `New`, Boot the boot id, LeadUp the time before a restart, Fire `fire`,
--                  Rules and Bins the rules, Kernel `Kernel`, Interfaces `API`. Window/Trail, Evolves
--                  and Spacing are proofs.
--   Collector      internal/transport/transport.go (`splitBody`) and internal/forward/forward.go: `pull`
--                  is drain, `pullOnce` is pull_once, and `labelPorts` and `resync` keep their names.
--                  The decoder of a line and the stages it calls are the interface Stages. The child
--                  modules of Collector/Forward are proofs.
--   Sinks/Queue    internal/sinks/queue.go: `push` is push; `deliver` is begin_round, posted and fail,
--                  its critical sections, and `act` interleaves them with pushes. Its World follows the
--                  batches whose post returned no error; what a remote keeps of a post that returned one
--                  is outside the model. The child modules are proofs.
--   Teardown       internal/teardown: `For` is for_sinks, and `Holds` and `Drop` of each store are clauses
--                  of holds and drop_item. Owned is a proof.
--
-- How the state corresponds: a struct is a record with the same fields; a mutex makes each method
-- atomic, so a method is a function from the state to the next; a Go map is an association list; a
-- string is a list of bytes; uint64 is a natural number with its wrap-around written out (u64 is the
-- remainder modulo 2 ^ 64, sub64 the wrapping difference), and int64 is an integer whose sums and
-- differences wrap too (add_int64, sub_int64). The package counter `resetsSeen` of
-- internal/sample is threaded through the differences as a state. float64 is an abstract type with
-- the operations the agent uses (Sample/Floats); json.Marshal of a sample and strconv.ParseFloat are
-- functions that may fail. The clock, the ticker and the reads of the kernel's files are the inputs of the sampler's events.
--
-- A regular expression of internal/procfs is a matcher for that expression on ASCII text. The prose of
-- a message is left out of the findings of internal/health and the detections of internal/derive: the
-- counts and the names that the prose states are their fields. Values that a sort compares are numbers,
-- since no NaN reaches it.
--
-- Nearly every function here is structural recursion on a list or a number. Fuel is used in the decimal
-- printing of Common/Text, where it is the number plus one, more than its digits; in the loops over the
-- fields of a line (count_loop, buddy_loop, total_loop), where it is the line's length plus one, more
-- than its fields (Procfs/Fuel); and in the loop of `pull`, whose bound is the source's own (100 rounds).
--
-- Not modelled: the rest of the HTTP server and of the agent's process, the reads of the file system
-- around the parsers (the limits, mtd, conntrack, board and boot id readers of internal/procfs), the
-- collector's other parts (internal/record, the API rounds of internal/forward, the writers of
-- internal/sinks) and the deployment (internal/router, internal/lab, internal/image), which are other components; rendering (internal/expo, internal/chart,
-- internal/dashboards); and internal/rosapi, another project's client.
pub mod Common
pub mod Procfs
pub mod Sample
pub mod Health
pub mod Derive
pub mod Agent
pub mod Sinks
pub mod Collector
pub mod Teardown
