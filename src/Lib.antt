-- ===== src/Lib.antt =====
-- The proxy settings of a system, as the crate proxy-watch reads and applies them: from the texts
-- that systems store, through a snapshot of the modes, to the steps to try for a URL.
--
-- The parts, in the order in which a value passes through them:
--
-- - Prelude, Text: shared names; Rust's `str` as the list of its code points, the readers and
--   writers of IP addresses, and UTF-8.
-- - Crates: the crates url and ipnet, as a record of the functions that the program calls, which
--   every later part takes as an instance argument; nothing is assumed of them.
-- - Util (src/util.rs): `split_host_port`, `glob_match`, `percent_decode`, `redact_userinfo`,
--   `redact_offending_token`, `sanitize_untrusted`, `fnv1a`. An index of the source into a text is
--   here the pair of the texts before and after it, or a number of code points.
-- - Auth (src/auth.rs), Scheme and Endpoint (src/endpoint.rs), Diagnostic (src/diagnostic.rs),
--   Error (src/error.rs), Reason: credentials, schemes, `ProxyEndpoint::parse` as Endpoint.Parse,
--   the record of a dropped value, the errors, and the reasons that the source writes as message
--   texts.
-- - Bypass (src/bypass.rs): Bypass.Parse is `HostPattern::parse_in`, its early returns as the cases
--   of a small monad; Bypass.Match is `HostPattern::matches` and `ImplicitBypass::covers`;
--   Bypass.Rules is `BypassRules` with `matches`, whose loop over the entries from the last to the
--   first is `walk`; Bypass.Gnome is `push_gnome_entries`; Bypass.Lists is the list readers of
--   src/parse.rs.
-- - Mode (src/mode.rs): `ProxyMode` and its lookups. Its map from schemes to entries is a function,
--   because the keys are the five schemes.
-- - Windows (src/parse.rs): the `ProxyServer` string and its SOCKS fallback. Windows.Registry
--   (src/sys/win/mod.rs): the settings of the user, of a policy and of the machine; the keys of the
--   registry and the queries of WinHTTP are arguments.
-- - Config (src/config.rs) and Config.Env (src/env.rs): the snapshot, and `with_env`, which ranks
--   the environment against the sources of the system. A time is a number, the current time and the
--   platform are arguments.
-- - Resolve (src/resolve.rs): `resolve` and `resolve_with_pac_using`, with the evaluation of a
--   script as an argument.
-- - Pac: the chain of distinct steps, at most 64 of them, and `parse_find_proxy_result`
--   (src/pac/result.rs); Pac.Policy (src/pac/policy.rs); Pac.Hostfn and Pac.Wildcard
--   (src/pac/hostfn.rs), the functions on hosts and addresses that a script may call, with the
--   resolver of the system as an argument; `ask_parent` is what a worker (src/pac/subprocess.rs) is
--   told by its parent process, which answers under its own policy.
-- - Pac.Slots (src/pac/budget.rs): the slots of the evaluations, with the list of idle threads and
--   the threads. A move is what a thread or a caller does between two locks or at a channel, and a
--   run is any sequence of them; the clock is left out, so a wait may end at any time.
-- - Pac.Time (src/pac/time.rs): the calendar, in integers; Pac.Hostfn.Ranges (src/pac/hostfn.rs):
--   `weekday_range`, `date_range` and `time_range`, which ask it. The clock and the operations of a
--   64-bit float are arguments.
-- - Dict (src/sys/proxy_dict.rs): the proxy dictionary of macOS and iOS, a function from its keys;
--   Dict.Values is its readers, Dict.Schemes the loop over the schemes, Dict.Bypass the list of
--   exceptions, and Dict itself `mode_from_dict` and `merge_setup_and_state`. A function of the
--   source that pushes drops on a list is here the list of what it pushes.
-- - Android (src/sys/proxy_info.rs): the default proxy of Android; `info_endpoint` is `endpoint`
--   and `info_bypass` is `bypass`. Android.Selected: the text of a URL for a proxy selector, and
--   the steps of its answer.
-- - Gnome (src/sys/linux/gsettings_map.rs): the GNOME settings, a function from their keys;
--   Gnome.Settings is the readers and the keys of the four children, and Gnome itself
--   `endpoint_for` (child_endpoint_for), `manual_mode` (gnome_manual), `mode_from_settings` and
--   `configured_mode`.
-- - Kde (src/sys/linux/kde.rs and kioslaverc.rs): Kde.Cascade is the directories and
--   `read_kioslaverc`, Kde.File `apply_proxy_settings` with Kde.Header and Kde.Escape, and
--   Kde.Settings the entries; Kde.Manual is `manual_mode` (kde_manual) with Kde.Address,
--   Kde.Indirect `env_mode`, and Kde itself `config_from_kioslaverc` and `read_store`. Reading a
--   file or a variable is an argument, and so is the validator of the crate configparser. The
--   scanner of an escape or of a header is a machine that reads one character at a time.
-- - Linux (src/sys/linux/backend.rs), with Linux.Confinement (sandbox.rs) and Desktop (desktop.rs):
--   the desktop and the sandbox that the program finds itself in, and the configuration from the
--   two stores or from the portal. Files is how the program reads files.
-- - Watch (src/watch.rs): the state that the backend thread and the subscriber share. Each
--   operation holds a mutex, so it is one function from the state to the state and the waker that
--   it woke. Watch.Queue is the queue of changes, of at most 1024 and one; Watch.Run is the step
--   relation: the backend acts, the constructor ends, the subscriber polls. `PartialEq` of a mode,
--   which the compiler derives, is an argument.
--
-- The proofs stand in modules below the part that they are about: Util.Glob.Pieces, Splits and
-- Reference, Util.HostPort.Bounds, Util.Redact.Sanitize.Bounds, Endpoint.Parse.Bounds and
-- Credentials, Bypass.Parse.Entry.Refusals, Bypass.Rules.Walk, Dedup and Verdicts,
-- Bypass.Lists.Reading, Mode.Lookup and Drops, Windows.Catchall and Tokens, Config.Precedence and
-- Cgi, Resolve.Routes and Schemes, Pac.Chain.Credentials, Pac.Outcome, Pac.Wildcard.Reading, Star
-- and Turns, Pac.Hostfn.Shell and Resolution, Pac.Slots.Invariant and Counts, Pac.Time.Years, Eras,
-- Days, Calendar and Instants, Pac.Hostfn.Ranges.Cycles, Dict.Values.Flags, Dict.Schemes.Silence,
-- Dict.Silence and Catchall, Gnome.Hosts, Kde.File.Locks, Kde.Cascade.Locks, Kde.Manual.Names,
-- Kde.Silence, Kde.Indirect.Forged, Android.Exclusions, Android.Selected.Escapes and Chosen,
-- Windows.Registry.Silence and Accounts, Linux.Routes, Mode.Silent, Watch.Polls, Watch.Queue.Tidy,
-- Renewal and Failures, and below Watch.Run: Sound, Invariant, Waiting, Wakeups, Draining, Worse
-- and Routes. Tests holds runs at concrete inputs.
--
-- Every loop of the source is a recursion on the list that it reads. Fuel stands in the printing of
-- a number, which is given one more than the number itself; in `wildcard_match`, where it is the
-- limit of 2 ^ 24 steps of the source, and `sh_exp_match-reading` says for which sizes that is
-- enough; and in `collect`, the loop of a subscriber, for which `collect-closed` gives the number
-- of polls.
--
-- Not modelled: log output and the texts of messages and of debug output, which decide nothing; the
-- script engines (src/pac/), the system calls that read and watch the stores (src/sys/) and the
-- threads behind the watcher, whose answers are arguments; `ProxyStep::to_url`, where the crate url
-- does the writing; the bindings (bindings/) and the build tasks (xtask/).
pub mod Prelude
pub mod Text
pub mod Reason
pub mod Util
pub mod Crates
pub mod Auth
pub mod Scheme
pub mod Diagnostic
pub mod Error
pub mod Endpoint
pub mod Bypass
pub mod Mode
pub mod Config
pub mod Dict
pub mod Gnome
pub mod Android
pub mod Files
pub mod Desktop
pub mod Kde
pub mod Linux
pub mod Watch
pub mod Windows
pub mod Resolve
pub mod Pac
mod Tests
