-- ===== src/Lib.antt =====
-- A verification of v2ray-rs, a desktop manager for the proxy backends v2ray, xray and sing-box. It
-- imports share links into subscriptions, keeps an ordered set of routing rules, writes a
-- configuration for the chosen backend from both, and supervises the backend's process.
--
-- The parts, and the files that model them (paths from the repository's root):
--   Models/Proxy, Models/Settings, Models/Subscription: the data of crates/core/src/models/proxy.rs,
--     settings.rs and subscription.rs. Structs are records, enums data types, field names kept.
--   Models/Validation: validation.rs. `validate_rule_match` is called before a rule is stored.
--   Models/Routing, with Order, Removal, Editing and Validity: `RoutingRuleSet` of routing.rs as the
--     list of its rules; a method that mutates it returns the new list. Models/Presets, with
--     Applying and Builtin: presets.rs and `apply_preset`, which adds rules without validating them.
--   Config/Common, V2ray, Xray, Singbox, Generator, Writer: crates/core/src/config/. Each `build_…`
--     function gives the JSON value that the code builds; Config/Json has `serde_json::Value` with
--     the accesses that the code makes. The generator for xray patches the value of the one for
--     v2ray; a panic of an index is the result `none`. The rules name outbounds by the tags that
--     Config/Common gives to the nodes. Config/Generator/Conditions has a table, apart from the
--     generators, of the JSON conditions that stand for a rule in each backend. Writer is
--     `write_config` of writer.rs over all files of the disk (`Files`, a function from paths to
--     texts).
--   Process/LogBuffer, State, Manager: crates/process/src/log_buffer.rs, state.rs and manager.rs. A
--     method of the supervisor takes what it meets outside (files that exist, results of spawn
--     attempts, exit codes, readings of the clock) as arguments, so a theorem over all arguments
--     covers all surroundings. Histories has the sequences of calls. Process/Pid: pid.rs, where the
--     table of the processes is an argument.
--   Subscription/Formats, Parser, Fetch, Update: crates/subscription/src/parser.rs, fetch.rs and
--     update.rs. The nodes that Parser reads from the links that Fetch decodes are reconciled with
--     the old nodes in Update. Subscription/Service: manager.rs, which stores what Update gives, and
--     refreshes what is overdue.
--   Storage/Persistence, RoutingManager: persistence.rs and routing_manager.rs of crates/core/src/.
--     The disk has three files, each a text or absent; the formats of serde_json and toml are
--     parameters (`Codec`), and the system calls that fail are arguments (`Faults`).
--     Storage/CustomPresets: the directory of the presets, of the same file. Storage/Geodata:
--     geodata.rs, with the answers of the network and readings of the clock as arguments.
--   Detection: backend.rs of crates/core/src/, where the runs of `which` and of the programs, and the
--     permissions of the files are arguments (`Machine`).
--   Ui/App, Subscriptions, Logs, Wizard: the files of the same names in crates/ui/src/, as the states
--     of the window and its pages with the messages they handle. What a handler asks of others is
--     appended to a list of effects; the task of a process is known by its number, and its messages
--     are messages like others. Ui/Tray: tray.rs and notification.rs of crates/tray/src/.
--   Base: Boolean tests, lists and sorting, texts, their words and bytes, numbers of fixed width,
--     files and results, for the standard library that the code calls. Tests: the theorems at
--     concrete inputs, with their data in Tests/Samples.
--
-- Numbers are natural numbers; `as u16` and `as u32` are remainders, `saturating_sub` is the
-- subtraction that stops at 0, and the integers that are parsed are bounded by their type. Loops are
-- recursion on the list they walk. Two loops count rounds: `try_spawn_from` begins with the five of
-- MAX_RETRIES and `retry_from` with max_retries + 1, the numbers of the ranges in the code, and
-- try_spawn_lem and fetch_with_retry_lem show that a result is given before the rounds end.
--
-- Parameters, since they are code of other packages: URL parsing, base64 and JSON decoding and the
-- percent decoding of fragments (`Formats`), the type of IP networks (`IpNetApi`), the printer of
-- JSON. The tables of Unicode (`Unicode`), the decoding of UTF-8 and the processes of the system
-- (`ProcessTable`) are parameters too. The hypotheses on them are that a parsed URL's port fits in 16
-- bits (`HasPorts`), that the equality of networks is reflexive, that a format reads back what it
-- writes (`RoundTrips`), that the format of the subscriptions does so but for the latencies of the
-- nodes, which serde skips (`ReadsBack`, `stored_form`), and that /proc lists the
-- positive values of a process identifier alone (`ListsPids`).
--
-- Not modelled: the widgets of the window and its pages with their dialogs, rows and drag sources;
-- preferences.rs and the translations; the timed connections of ping.rs; the tasks that read the
-- output of a process; the body of the task that app.rs starts for a process, which is met by its
-- messages; the icons and the D-Bus calls of the tray.

pub mod Base
pub mod Models
pub mod Config
pub mod Process
pub mod Subscription
pub mod Storage
pub mod Detection
pub mod Ui
pub mod Tests
