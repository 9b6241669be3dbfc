-- ===== src/Lib.antt =====
-- A model of vitals, a system monitor for Linux: it scans /proc at an interval, turns two scans into
-- rates, keeps a bounded history, and runs alert rules with a sustain time and hysteresis.
--
-- The parts, and the modules that model them:
--   Units   src/units.rs: the kernel's constants from auxv, the number of CPUs, sizes and durations, read
--           and printed. Units/Auxv writes auxiliary vectors, Units/Spelled and Quantities are about
--           sizes and durations with their units.
--   Procfs  src/procfs.rs: the records of the /proc files with their methods; Procfs/Stat, Pid, Mem and Net
--           are the parsers. Procfs/Pid/Comm is about names that hold parentheses. Pid/Printed, Mem/Printed,
--           Net/Printed and Stat/Printed print the files as the kernel does, with Mem/Lines and Stat/Lines for
--           the lines and Procfs/Counters for the counters in them.
--   Sample  src/sample.rs: `Collector::collect` and what it calls. The file system is the record `Fs`
--           of what each read returns. Sample/Vanishing is about processes that exit during a scan.
--   Delta   src/delta.rs: `diff`. Delta/Rates is about its arithmetic, Delta/Order about its list of
--           processes, Delta/Net about the totals over the interfaces.
--   Rules   src/rules.rs: Rules has metrics, operators, targets and rules; Rules/Parse is `parse_rules`;
--           Rules/Parse/Printed and File print rules, Sound and Extra are about what is accepted.
--           Rules/Engine is the engine's state and `Engine::step`; Rules/Evaluate is `Engine::evaluate`,
--           `active` and `active_count`.
--   Ring    src/ring.rs: the ring buffer. Ring/Inv has its invariant, Ring/Refine and Ring/View compare
--           it with a queue.
--   Sampler src/sampler.rs: a pass of the thread's loop on the thread's variables and the shared state.
--           Sampler/Sleep is the sleep, Sampler/Thread the loop with its stop flag; Sampler/Cycles and
--           Sampler/Log say what several passes come to.
--   Cli     src/bin/vitals.rs: the command line, `flag` and `has`. Cli/Options has the options of the
--           usage text; Cli/Start is `main` up to the sampler that it spawns, Cli/Start/Rules its rule
--           file; Cli/Loop is the loop of `main`, Cli/Loop/Ends how it ends.
--   Screen  src/bin/vitals.rs: `sparkline` and `render_text`. Screen/Bars is about the indices of the line
--           of blocks, Screen/Height and Height/Frame about the lines of a frame.
--   Json    src/bin/vitals.rs: `jstr`, `jnum` and `render_json`; Json/Strings reads JSON strings, and
--           Json/OneLine is about the line feeds of an object.
--   System  src/sampler.rs with src/bin/vitals.rs: the thread, `main`, and the handle with `stop` and
--           `drop`, as a step relation with any interleaving and with a panic of `main`. System/Consistent
--           and Steps are about what readers see, System/Frames about what the frames show, System/Stops and
--           Returns about the end.
--
-- How they interact: `collect` calls the parsers on what it reads and keys the processes by pid and
-- start time; `diff` takes two samples and gives a `Snapshot`; `evaluate` takes the snapshots in turn.
-- Rules/Machine is the abstract state machine of one alert subject. Rules/Machine/Step compares
-- `step` with it, Rules/Machine/History and Progress say what holds over its histories,
-- Rules/Evaluate/Observations and Find list what one evaluation observes, and Sources where in the
-- snapshot it comes from. Rules/Evaluate/Subjects,
-- Gone, Unread, Recycled and Alerts are about one evaluation, Rules/Evaluate/Invariant has the engine's
-- invariant, and Rules/Trace, with Alerts and Inert, is about an engine over many snapshots.
--
-- Shared modules: Prelude has lists, options, results, words, integers, association lists and sorting on
-- the native numbers. Text has the string functions of the standard library that the program calls, on
-- lists of characters, and Text/Number reads and prints integers. Text/Display, Words, Lines, Columns and
-- Feeds are the lemmas on numbers, words, lines and tables that are printed and read back; Units/Feeds is
-- about printed quantities.
--
-- Conventions and bounds:
--   * `u64` and `usize` sums wrap at 2^64, as in a release build; `u32` counters wrap at 2^32. A
--     `saturating_sub` is `-` on ℕ. A ring has fewer than 2^63 slots, as its memory bounds it.
--   * `f64` is the interface `Float`, since its arithmetic is the language's: theorems about comparisons
--     assume `IsOrdered`, which numbers other than NaN fulfil, and those about rounding assume
--     `IsRounding`. That Rust prints a float without a line feed is the assumption `HasNoFeed`.
--     Float/Whole is an instance, for tests.
--   * An `Instant` and a `Duration` are numbers of nanoseconds.
--   * A `HashMap` is an association list, in its order of iteration.
--   * Loops are structural recursion on what they go over. The printing of a number recurses on fuel,
--     one more than the number, which has fewer digits than that.
--
-- Not modelled: errors of writing to the standard streams; a panic of the sampler's thread, which poisons the
-- lock; the sleeps between the rounds of `main`, which its model takes as a clock reading to each round; the
-- accessors `Collector::root` and `Ring::len`; and the crate root src/lib.rs, which only declares modules.
-- The file system and the debug form of a string (`{:?}`) are parameters. The lock is held for the
-- whole handover and for the whole of each reading, so either is one step; the stop flag is read
-- `Relaxed`, so a step may miss that it was set.
pub mod Cli
pub mod Delta
pub mod Float
pub mod Json
pub mod Prelude
pub mod Procfs
pub mod Ring
pub mod Rules
pub mod Sample
pub mod Sampler
pub mod Screen
pub mod System
pub mod Text
pub mod Units
