-- ===== src/Lib.antt =====
-- A verification library for stavlos, a daemon that runs coding agents. Channels keep agents,
-- agents call tools, and a human decides what they may do. The parts modelled here are those on
-- which that decision rests, and the state that every channel replays from its journal.
--
-- A tool call has a subject: a command, a path, a URL, a text. The rules (Policy, src/policy.rs)
-- give a verdict on each text of the subject; for a command these are the line itself and every
-- command that it may run, which the shell reader finds (Shell, src/shellcmd.rs); but the
-- admission turns the subject of the shell tool into a text, `run` and the line, before it asks
-- the rules, so that there they judge the line as a whole. The name under which rules and grants
-- are kept is the operation of the call (ToolName, src/toolname.rs). The admission (Permission,
-- src/agent/permission.rs, with `policy_subject` of src/tools/mod.rs) adds what the role, the
-- directories, the sandbox and the grants say, and the verdict of Security (src/agent/security.rs)
-- allows, asks or denies. A question goes to the human as a prompt, which one of several clients
-- claims and answers (Escalation, src/escalation.rs). What "always" grants is an event of the
-- journal, and the fold over the journal (Agent, src/agent/state.rs, src/event_types.rs,
-- src/event_payloads.rs) keeps the permits with the agents, their inboxes and the ledger of
-- requests that wait for a reply. Events are numbered and stored by the writer of the log
-- (EventLog.Store, src/eventlog.rs), which hands every committed batch to the clients that follow
-- a channel (EventLog.Clients, src/daemon/hub.rs). Frames for the clients go through a bounded
-- queue (Daemon.Queue, src/daemon/queue.rs). One tool, the patch (Patch, src/toolpatch.rs), is
-- modelled whole: what it reads from a text, stages in memory and writes. What models, files and
-- tools put on a terminal is scrubbed first (TextSafe, src/textsafe.rs). Which paths lie inside a
-- directory is decided on their components (Paths, src/pathx.rs).
--
-- How the code is represented:
--   * A `str` is the list of its characters' code points, a `BTreeMap` an association list in the
--     order of its keys, a `BTreeSet` the ascending list of its members (Common and its children,
--     which also have the methods of `str` that the code calls).
--   * Code under a mutex is a function on the guarded state; threads and timers are lists of such
--     operations in any order (Daemon.Queue `Op` and `run`, Escalation.Once `Op` and `run`).
--     Notifications and answers are values beside the new state.
--   * Fallible code returns Option or a type of its errors.
--   * Daemon.Queue has `enqueue`, `replay`, `recv`, `close`; Shell.Words `words` and `simple`;
--     Shell.Prefix `prefix` and `covers`; Shell.Segments `segments`; Shell.Launch `launched` and
--     `scripts`; Shell.Commands `commands`; Policy `glob`, `lookup`, `merge`, `decide`, and
--     `decide_layered` for `Layered::decide`; ToolName `canonical`, `operation_raw`,
--     `policy_rule`; Security `judge`, `url_host`, `permits_cover` for `Permits::covers` and
--     `apply` for `Permits::apply`; Escalation.Prompts the data and Escalation.Manager one
--     function for each method of `Manager`; Permission.Decide `decide`, and Permission.Answers
--     `answered` for `Decision::answer`; Agent.Types the records, Agent.Payloads the events,
--     Agent.Requests the ledger, Agent.Turn `apply_turn`, Agent.Fold `apply`; Patch.Parse `parse`,
--     Patch.Lines `apply_hunks`, Patch.Stage `stage`, Patch.Write `write` and `run`;
--     EventLog.Store `read`, `write` and `commit`, EventLog.Clients `deliver`, `subscribe` as
--     `start_replay` and `replay_turn`, and `reaches` for the choice in `Hub::notify`;
--     TextSafe.Scrub `scrub`; Paths.Lexical `clean`, `relative` and `inside`.
--   * The proofs stand in modules named for what they prove: Daemon.Queue.Bounds and Order;
--     Shell.Grants, Refusal, Launched and Distinct; Policy.Judge, Select and Merge; ToolName.Laws;
--     Security.Verdict and Grants (and Security.Repeat, which has `RepeatCall` itself);
--     Escalation.Ledger, Once, Closes and Claims; Permission.Admit, Grant and Again; Agent.Ledger,
--     Events, Forget, Narrow and Replies; Patch.Index, Shows and Refine (against Patch.Spec, what
--     the operations of a patch mean), Atomic, Outcome, Run, Search, Hunks and Identity;
--     EventLog.Numbers, Transactions, Commits and Serves, and Follow, Join, Batches and Runs,
--     where Join has a client, the table and a subscription as a `World` with its steps;
--     TextSafe.Safety; Paths.Inside. The modules called Tests have runs and concrete instances.
--
-- Parameters, for code that is not in the repository: the `regex` crate (`Policy.Regex`: the
-- escape of a character, and whether an expression matches a text), `reqwest::Url::parse` and
-- `char::to_lowercase` (`Security.Web`). No theorem assumes anything of them. SQLite is two
-- parameters of the log: which rows it accepts (a failure of the other statements of a transaction
-- counts as a row that is not accepted), and how each `COMMIT` ends, with the case that the caller
-- cannot know. The file system of the patch tool, src/toolfs.rs over the operating system, is an
-- interface with laws (`Patch.Disk.Filesystem`): a call that fails changes no content, and a
-- counter that no operation sees bounds how many calls may still fail; two paths of the interface
-- are two files, so that the theorems on a patch are about paths that no symbolic link makes the
-- same; Patch.Tests has an instance.
--
-- Bounds and fuel: `launched` drops at least one word in each round, so its fuel is the number of
-- words; `commands` enters scripts to depth 4, as the code does; the loops over characters are
-- recursions on the characters that are left. The generation of a prompt wraps at 2^64, as in the
-- code. The loops of the patch tool and of the log are recursions on the lists that they go over.
-- The numbers of events stop at 2^63 - 1, as in the code. Other counters that the code keeps as
-- `i64` are natural numbers here and do not overflow; sums of costs, which the code keeps as
-- `f64`, are the lists of their summands.
--
-- Not modelled: what the file system and the JSON reader find (the directory outside, the hidden
-- path, the control file, the fields of an input) is an argument of the admission; the transcript
-- builder that the fold feeds (src/project.rs); the permission bits in the theorems on patches;
-- the index tables and the usage queries of the log, and its opening; the encoding of frames; the
-- wake-ups of waiting tasks; the record that a prompt shows; sockets, processes, the sandbox
-- itself, model and web clients, and the user interfaces.
pub mod Patch
pub mod EventLog
pub mod TextSafe
pub mod Paths
pub mod Common
pub mod Daemon
pub mod Shell
pub mod Policy
pub mod ToolName
pub mod Security
pub mod Escalation
pub mod Permission
pub mod Agent
