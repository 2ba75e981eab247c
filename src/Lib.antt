-- ===== src/Lib.antt =====
-- CR-Agent, a local code review agent: a task takes a change, plans its review, spends a token budget
-- on model calls, and publishes what it finds. This library models the deterministic core of the
-- program (src/code_review_agent) and proves what keeps it safe. Paths below are relative to that
-- folder.
--
-- The parts and the files that model them:
--
-- * Budget (domain/budget): `BudgetLedger.project` and every method of `BudgetService`.
--   Budget/Models has the value objects, Budget/Ledger the projection, Budget/State the state and
--   the private helpers, Budget/Service, Budget/Settlement and Budget/Authorization the methods.
--   The proofs are in Budget/Steps (each helper as an equation), Budget/Sound (the invariant, one
--   child for each method), Budget/Runs (sequences of calls), Budget/Idle and Ended (reservations
--   that have ended), Budget/Once and Budget/Sequences. What the optional store holds is arbitrary;
--   where a theorem lets `restore_account` be called it asks that the stored row is coherent and
--   not loaded yet.
-- * Task (domain/task): every method of `TaskService`. Task/Models has the value objects,
--   Task/StateMachine the transition rules, Task/State the state and the private helpers,
--   Task/Leases the methods about leases, Task/Service the others. The proofs are in Task/History
--   and Task/Forward (one step), Task/Calls (sequences of calls), Task/Overtaken (a task that was
--   taken over, through any calls) and Task/Fencing. `terminate` checks no lease of a task that is
--   not running.
-- * Publication (domain/publication/models.py, application/publication_service.py and the publication
--   tables of application/persistence.py): Publication/Models has the contracts, Publication/Store
--   the statements of the store on the rows of one task, Publication/Items the helpers and the turn
--   of the loop for one item, Publication/Service `publish`, Publication/State the rows and the world
--   outside: the methods of the platform, the clock, the scanner and `append_trace_event`, each with
--   an answer of its own at each call. An exception of the platform that is no `PublicationError` is
--   not modelled. The proofs are in Publication/Aggregate, Publication/Fencing, and Publication/Sent,
--   Quiet, Requests, Publish and Locked, which follow the requests through `publish` from the inside
--   out.
-- * Trace (domain/trace): Trace/Models has the values, Trace/Service the state and `commit`,
--   Trace/Links `add_edge`, `create_comment_link` and `verify_integrity`; what the schema registry
--   raises is an argument. The proofs are in Trace/Numbered (the loop of `commit`), Trace/Sound (the
--   invariant), Trace/Runs (sequences of calls) and Trace/Again (a commit that is sent twice).
-- * Input (domain/input): the unified diff parser. Input/Models has the contracts, Input/Lines the
--   physical lines, Input/Utf8 and Input/Quoted the quoted paths, Input/Paths the paths of headers
--   and markers, Input/Headers the hints, Input/Ranges and Input/Hunks the hunks, Input/Facts the
--   lines of the extended header, Input/Checks the checks of a file, Input/Files `_parse_file` and
--   Input/Diff `parse`. An index into the lines is the list of the lines left. The proofs are in
--   Input/Valid, Loop and Slices (hunks), Input/Offsets (physical lines), Input/Quoting and
--   RoundTrip (quoted paths), Input/Kept, Sound and Whole (files and diffs), and Input/Ends (fuel).
-- * Planning (domain/planning): Planning/Models has the contracts, Planning/Capacity the estimates
--   and the split into groups of hunks and blocks of lines, Planning/Planner `plan` on the files
--   that the diff parser returns. A block has a line, so the number of lines is fuel enough for the
--   cut. The proofs are in Planning/Packed (groups and blocks), Unsplit (the hunks left out),
--   Covered, Pieces and Parts (from a unit to all files), Plan, and Ranges and Returns (which calls
--   return).
-- * Findings (domain/findings): Findings/Models has candidates, evidence, executions, findings and
--   coverage, Findings/Validation the checks of a candidate, Findings/Coverage `_coverage`,
--   Findings/Processor `process`. The proofs are in Findings/Settled (the loop over the
--   candidates), Order (the sort), Direct (the evidence of a finding), Answers (the coverage of a
--   scope) and Final. Prelude/Sorting has the sort by keys that the planner shares.
--
-- How the code is read. A method is an action on the state of its object that returns a result or
-- an error and the state beside it (Prelude/Exec, with Prelude/Hoare for what holds after it), so
-- what was written before a raise stays written. A dict is an association list in insertion order
-- behind its laws (Prelude/Dict). Texts are native strings, amounts and counters natural numbers,
-- and arguments that the code checks for their sign are integers (Prelude/Int). What `uuid4()` and
-- the clock return are arguments, in the order in which the code asks for them; where a theorem
-- needs a drawn id to be new it says so. Times are seconds in UTC. `replace(...)` runs the checks
-- of `__post_init__` again; they are modelled where an argument can make them fail. The diff
-- parser, the planner and the finding processor read texts as lists of code points, with no lone
-- surrogates in the lines of a hunk. What Python takes for a decimal digit, how it lowers and
-- strips a text, and the digests that make ids and fingerprints are parameters. Recursion is over
-- lists, but for three loops on fuel: that of `_physical_lines` has the number of characters, that
-- of `_parse_file` the number of lines, since every turn takes one at least, and the cut of a hunk
-- into blocks the number of lines.
--
-- Not modelled: the SQLite layer but for the publication tables, HTTP adapters, the command line
-- and configuration, digests and JSON, the regular expressions of the security scanner, report
-- templates, `prepare` of the publication, `prepare_events` of the trace, the change set around the
-- files of a diff, the ids of hunks and lines and the artifact that slices refer to, the tools of a
-- plan; and, so far, the executor of work units and the model gateway.
pub mod Prelude
pub mod Budget
pub mod Task
pub mod Publication
pub mod Trace
pub mod Input
pub mod Planning
pub mod Findings
