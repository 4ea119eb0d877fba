-- ===== src/Lib.antt =====
-- easywall: a firewall manager in two processes. The core (internal/core, root) owns rules.json
-- and the kernel's table; the web process (internal/web) edits staged rules over a socket. An
-- apply backs the enforced set up, promotes the staged one, writes the table and opens an
-- acceptance window: if nobody confirms, the previous set comes back.
--
-- Prelude passes library names on and holds the Boolean tests and list functions that all share.
-- Text holds the strings: a text is a list of code points, and the functions of Go's strings and
-- strconv that the program calls are defined on it. Text/Address is net.ParseIP and
-- net.ParseCIDR.
--
-- Rules (internal/shared/models.go) has the rule sets as records: PortRule, ForwardingRule,
-- Rules, RulesState. Rules/Feeds (internal/shared/feeds.go, countries.go) says which feed ids
-- there are. Rules/Ids (internal/shared/ruleid.go) is EnsureRuleIDs and what it calls;
-- crypto/rand is the parameter `source`, the loop that draws an id takes fuel. Rules/Ids/Ensure
-- and Rules/Ids/Walks hold its lemmas: as much fuel as there are port rules is enough if the
-- draws do not repeat within the fuel. Rules/Validate (internal/shared/validate.go) is
-- ValidateRules with its errors; Rules/Validate/Storable describes what it accepts,
-- Rules/Validate/Ports and Rules/Validate/Accepts relate the two.
--
-- Store (internal/core/rules.go) is RulesStore. The mutex makes each method one step from the
-- file before to the file after; whether a read or a write succeeds, and what a payload decodes
-- to, are arguments. Store/Invariant and Store/History say what every call keeps, Store/Cycle
-- what an apply's calls do together. Store/Import is ExportStaged and ImportRules on bytes, with
-- Rules.UnmarshalJSON of internal/shared/renamed.go in Rules/Renamed; encoding/json is the record
-- Json, and that it reads back what it writes is a hypothesis on the set at hand, since it replaces
-- bytes that are no UTF-8.
--
-- Diff (internal/shared/diff.go) is DiffRules, the preview of an apply, and HasPendingChanges;
-- its rows are in Diff/Delta, and its parts in Diff/PortDeltas and Diff/SetDeltas. Diff/Once,
-- Diff/Ports, Diff/Sets and Diff/Pending say when it lists nothing. A Go map is a function into
-- Option; where a key or a text is put together from parts, its parts are kept.
--
-- Acceptance (internal/core/acceptance.go) is the acceptance window, method by method. Wait is
-- two steps, `ready` before its mutex and `wake` behind it. Acceptance/Window runs it against
-- any sequence of calls of other goroutines, Acceptance/Clock looks at the timer and the
-- shutdown.
--
-- Firewall (internal/core/firewall.go, restore.go, unconfirmed.go, panicmode.go,
-- appliedconfig.go) is the cycle that puts these together, on a World: rules.json, the
-- unconfirmed marker, the recorded configuration, the kernel's table, the window and the audit
-- log. Every answer of the file system and the kernel, and of the panic marker each time it is
-- looked at, is a field of the environment that the step gets; the configuration is a type
-- parameter. Firewall/Rollback is Firewall.rollback, Firewall/Apply is Firewall.Apply cut at its
-- early returns, Firewall/Restore is RestoreCurrent, Firewall/Console is Panic and Resume.
-- World.disks keeps every state of the disk that was passed, which is what a crash can leave.
-- Firewall/Safe, Firewall/Crash, Firewall/Enforce, Firewall/PanicMode and Firewall/Cycle are
-- about a crash inside an apply, restores and rollbacks, panic mode during a write, and an apply
-- at which nothing fails; Firewall/Race is about a rollback or a restore that panic mode
-- overtakes. Resume's restore sees the panic marker as it stands, since panicMu keeps Panic out.
-- Of the daemon's goroutines, those that call the window are in the model of an apply as lists of
-- calls, and Panic is there by what its marker says at each look.
--
-- Login (internal/web) is what stands between a password and a session. Login/Pending
-- (pendingattempts.go, pending2fa.go, handler_login.go) counts the attempts of a half-login;
-- Login/Budget and Login/Budget/Interleaved bound them. Login/Totp (totp.go, totpreplay.go) is the
-- one-time codes; HMAC, base32 and strings.ToUpper are the fields of Crypto, Login/Totp/Digits,
-- Login/Totp/Steps and Login/Totp/History say what is accepted. Login/Session (sessionrevoke.go,
-- middleware.go) is logout, with Login/Session/Revoked; Login/Challenge (passkeyreplay.go) the
-- spent passkey challenges. What a cookie's codec decodes is an argument, and the clock is the
-- instant of a step.
--
-- Feeds (internal/core/feeds.go, feedstore.go) is UPDATE_FEED. Feeds/Prefixes has netip's addresses
-- and prefixes and what counts as globally routable, Feeds/Entries is validateFeedEntries, with
-- netip's parsers as the fields of Netip, Feeds/Store the copies in feeds.json and Feeds/Update
-- Firewall.UpdateFeed, cut at its early returns; the answers of the panic marker, the rules file,
-- the kernel and the disk are fields of its Env. Feeds/Prefixes/Routable, Feeds/Entries/Kept and
-- Feeds/Update/Routable follow what may be stored from an entry to the kernel. Feeds/Ranges
-- (nftables_feeds.go) merges prefixes for the kernel, with slices.SortFunc as an insertion sort;
-- Feeds/Ranges/Bits and Feeds/Ranges/Merged compare the ranges with the prefixes.
-- Feeds/Update/Shrink and Feeds/Update/Shrink/Accepted follow the watch of lists that shrink,
-- Feeds/Update/Accepts an update that succeeds.
--
-- Usage (internal/core/usage.go) books the kernel's counters; Usage/Traffic puts it on a host with
-- packets, collects, new tables and resets, together in an apply that nothing comes between or one by
-- one; Usage/Bounded and Usage/Exact compare the record with the traffic.
-- Version (internal/shared/version.go) orders version strings; Version/Order and Version/Equal are
-- about that order. Text/Table is a Go map with text keys, as a function into Option.
--
-- Nftables (internal/core/nftables.go, nftables_feeds.go, forward_family.go) is the ruleset that
-- ApplyWithFeeds builds: Nftables has the netlink expressions, Nftables/Net the addresses, with Go's
-- parsers as the fields of Netlib, Nftables/Match the matches, Nftables/Accepts the accepts and the
-- blocklist, Nftables/Options, Nftables/Filters and Nftables/Drops the optional protections and the
-- feeds, Nftables/Forward the forward chain, and Nftables/Build the whole batch, whose rules stand in
-- one list in the order in which they are added, each with its chain. Nftables/Netfilter is the kernel:
-- Netfilter is a parameter with laws, a machine with one register as nft(8) describes it, and walk the
-- order of rules, jumps and returns, with a bound on the depth of jumps, for which every number will
-- do. Nftables/Reading and Nftables/Quiet follow an accept back to the rules that accept;
-- Nftables/Admitted says in the words of the configuration who is let in, and its children compare the
-- two, in both directions for the port rules (Nftables/Admitted/Opened). There a port rule's sources
-- are read as networks of four bytes, or of sixteen that are no IPv4 address, as net.ParseIP and
-- ParseNetwork return them; cidrMatchOp leaves out a source of any other length. Tests/Tables has a
-- machine that meets the laws of Netfilter.
--
-- Tests runs the definitions on samples and applies the theorems to them.
--
-- Not modelled: what the kernel answers to a flush, the policies of the chains, the elements of the
-- feed sets, what the nft command makes of custom rules, CheckRules, and the counters that are read
-- back from the kernel; sockets, HTTP, templates, downloads,
-- mail, TLS, namespaces and log files, which are input and output; the configuration files,
-- whose decoding is a library's; the step of an apply at which the usage counters are read, which
-- Usage has by itself; DiffConfig, which walks structs by reflection; and of the login the recovery
-- codes, the rate limit and the passkeys themselves.
mod Prelude
mod Tests
pub mod Text
pub mod Usage
pub mod Version
pub mod Rules
pub mod Store
pub mod Diff
pub mod Acceptance
pub mod Feeds
pub mod Firewall
pub mod Login
pub mod Nftables
