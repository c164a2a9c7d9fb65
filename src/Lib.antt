-- ===== src/Lib.antt =====
-- The device bank of atelierd, the runs of forge, and the ports, stacks and lanes of lanes, and the
-- transcripts that atelierd reads.
--
-- The repository builds three tools. atelierd leases simulators, emulators and plugged phones to
-- sessions (internal/atelierd/devicebank) and keeps the state of test campaigns
-- (internal/atelierd/forge); lanes gives each worktree a block of ports (internal/lanes/ports) and
-- a lane, and its daemon lanesd watches the stack of processes of each (internal/lanes/daemon).
-- atelierd also reads the transcripts of sessions (internal/atelierd/transcript) and their titles
-- (internal/atelierd/sessionstore). These parts share no state. Each keeps JSON files that commands of
-- several processes read and write under a lock, so a command is modelled as what it does to the files between its lock and its unlock, and an
-- interleaving of processes as a sequence of such steps.
--
-- Prelude holds the tests, lists, search loops and decimal texts that the parts share.
--
-- DeviceBank: internal/atelierd/devicebank.
--   Types (records of state.go, journal.go, physical.go), State (the methods of State, migrate,
--   WithLock), Queue (queue.go), Lease (lease.go), Physical (the decisions of physical_lease.go),
--   Reap (reapLocked, reconcile and Reap of ops.go), Grant (grantLocked and its parts), Ops (the
--   locked sections of acquire, settleBoot, leaveQueue, Pause, Release, OnEmit and runRecycle, and
--   SetMaxOn), Bank (bank.go), Resize and InitBank (InitBank and the resizes of ops.go, with the
--   answers of simctl and avdmanager as a record, BankTools). A section is a function from the
--   state to the state, whether it is written back, and its answers. A pointer into the state is a
--   position in its list. Time is a number of nanoseconds, and 0 is Go's zero time. The toolchains
--   (adb, simctl, emulator) are a record of functions, Toolchain, and one probe of the phones is a
--   value, PhysicalProbe: every theorem holds for all of them. Fair, Edits, Limit and Exclusive
--   hold the proofs: Edits is the relation of the small changes that each operation is made of, and
--   Limit and Exclusive lift it to sequences of sections (BankStep, Run); Ending says what a
--   release and a reap leave.
--   Not modelled: the unlocked work of a command (booting, erasing, installing), the status rows,
--   and the parsing of the tools' outputs.
--
-- Forge: internal/atelierd/forge.
--   Types (records of types.go, the files of a run, and one atomic write of them), Validate (the
--   validation of types.go), Store (readRun, readCampaign, readLedger, their agreement, queueEvent
--   and flushPending of store.go), Waves, Passes and Campaigns (the commands of ops.go). A command
--   gives the writes that it does, in order, and its answer when all of them succeed: a crash, or a
--   write that fails, is a prefix of the writes. `fits`, the size of a campaign's JSON, is a
--   parameter, and the outbox's answers are a list. Invariant, Steps, PassSteps, OutcomeSteps and
--   Runs prove what holds after any commands cut short anywhere; Appending, Retry and Limits are
--   about one command each, and Counting is about the validation of outcomes.
--   Not modelled: the bytes and the JSON of the files, symbolic links, the locks, the pruning of
--   old runs, the commands that only read (Status, FindRun, ShowPass, LoadCampaign), the rendering,
--   and the removal of a new capture directory when the write behind it fails.
--
-- Ports: internal/lanes/ports/ports.go.
--   The table, overlapping, allocate, Ensure and Remove. `busy` stands for the kernel's answers and
--   lo and hi for the range. The search has fuel hi + 3: each round moves the start up, and the
--   search ends past hi.
--
-- Lanes: internal/lanes.
--   Procs (procinfo/procinfo.go), Sweep, Sweep/Orphans (orphanRoot of OrphanHolders) and Signals
--   (daemon/sweep.go), Stacks (daemon/daemon.go, and start of daemon/stack.go), Registry
--   (registry/registry.go, and eraseRegistered and retiredEntries of daemon/stack.go), Lane
--   (lane/lane.go), Pieces (Evaluate of pc/pc.go). A snapshot of the processes is a list, a set of
--   process IDs the list of its members, and a map the list of its entries in the order of an
--   iteration. The search of Sweep has fuel twice the number of processes, since each is queued at
--   most twice, and a walk to the launchers has that number and two, since each round collects
--   another ID: both are shown to suffice. The walk of Orphans takes its fuel from a rank that
--   falls from child to parent, since on a cycle of parents the loop would not end. A step of a
--   stack is what the code does to it between two reads of the clock; Stacks/Grace.antt has the
--   relation of all steps. What git says of a worktree is a record, and the ID of a new lane and
--   the outcome of an erasure are parameters.
--   Not modelled: the socket of lanesd and its JSON, goroutines, process-compose (launch,
--   awaitReady, up), the rest of OrphanHolders and the orphan passes of reconcile, the names drawn
--   for lanes, lanes.yaml and its validation, the adapters for databases and emulators, workspaces
--   and the commands.
--
-- Transcript: internal/atelierd/transcript, the state and the events of one session.
--   state.go (markMinute, ForgetMinute, pruneEmittedMinutes, offsets, migrateLegacyState,
--   validateKey, what saveStateLocked changes), derive.go (Derive and its parts), and the minutes that
--   readSessionTree of internal/atelierd/cmds/sessions.go adds to a state that was moved. A minute is
--   its number; the decoding of a line and the keys of paths are arguments. LastActivityAt is left
--   out, and so are the ULIDs and times of the events.
--   Not modelled: the files and their lock, LoadState and UpdateState around them, and the search
--   of the directories for transcripts.
--
-- SessionTitles: internal/atelierd/sessionstore and consumeStoreEntry of
-- internal/atelierd/cmds/session_store.go.
--   The titles of Claude Desktop's sessions that atelierd gives to its outbox. A scan of an entry is a
--   value with the time and whether the state can be saved.
--   Not modelled: the walk over the store, the watcher and the files.
pub mod Prelude
pub mod DeviceBank
pub mod Forge
pub mod Lanes
pub mod Ports
pub mod SessionTitles
pub mod Transcript
