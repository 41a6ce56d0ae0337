-- ===== src/Lib.antt =====
-- Verification of kaven-dns, a DNS server with rules, an answer cache and a web console.
--
-- A query goes to the resolver (internal/resolver). It asks the rule store (internal/rules) for
-- the best matching rule: a fixed rule is answered at once, where a CNAME rule resolves its
-- target in turn. Any other query is looked up in the cache (internal/cache) and else sent to
-- all upstreams at a time, of which the first to answer wins; its answer goes into the cache.
-- The configuration (internal/config) gives the upstreams and the bounds. The DNS service
-- (internal/dnsserver) hands queries to the resolver and records them. The web console
-- (internal/web) changes all of these while they run: it lets people in through the session
-- manager (internal/auth), edits the rules and the settings, moves the listeners after them, and
-- shows the query history (internal/history), the logs (internal/logstore), the load of the
-- machine (internal/systeminfo) and whether there is a newer version (internal/update). Rules,
-- configuration, sessions and history are kept in files, written by internal/persist.
--
-- Files:
-- - Prelude: names that all modules share; numbers, tests, lists, texts as lists of bytes, maps
--   as association lists (Prelude.Assoc).
-- - Go: what the program uses of the packages strings, strconv, net and encoding/hex. Dns: the
--   shape of resource records.
-- - Persist (internal/persist/json.go): Persist.Defs is WriteJSON over the answers of the
--   operating system; Persist.Write its effect on the file.
-- - Cache (internal/cache/cache.go): Cache.Defs has the state and one function per method (get
--   for Get, set for Set, sweep, flush, info, set_max_entries); Cache.Linked and Cache.Invariant
--   the invariant; Cache.Lru the comparison with an ideal list; Cache.Reads and Cache.Aging what
--   reads return; Cache.Runs sequences of calls.
-- - Config (internal/config/config.go): Config.Defs has Sanitize, ParseUpstream, Load, Update
--   and Replace; Config.Sanitize and Config.Updates their laws.
-- - Rules (internal/rules/rules.go): Rules.Domain has NormalizeDomain, matchDomain, patternScore
--   and the pattern of domains; Rules.Defs the store and Find; Rules.Validate is Validate;
--   Rules.Find, Rules.Patterns, Rules.Stores, Rules.Failures, Rules.Accepted, Rules.Accepting
--   and Rules.Normal are the laws.
-- - History (internal/history/history.go): History.Defs has Record, trimLocked, Search, List,
--   Reset, SetLimits, Stats and Load, History.Analytics is Analytics, History.Saved is Persist
--   and Load; History.Trim, History.Search, History.Runs, History.Newest and History.Sampled the
--   laws.
-- - Resolver (internal/resolver/resolver.go): Resolver.World is what lies outside; Resolver.Defs
--   has resolve, fixed, forward and label; Resolver.Levels, Resolver.Forward and Resolver.Hits
--   the laws.
-- - LogStore (internal/logstore/logstore.go): LogStore.Defs and LogStore.Bounds.
-- - Auth (internal/auth/auth.go): Auth.Defs has Login, Check, Logout, load, Close and a round of
--   cleanup; Auth.Password is HashPassword and VerifyPassword; Auth.Lockout, Auth.Sessions,
--   Auth.Stored and Auth.Saved the laws.
-- - DnsServer (internal/dnsserver/server.go): DnsServer.Sockets has Start, Restart and Shutdown
--   over the sockets that are open; DnsServer.Client the address of the client; DnsServer.Query
--   the handling of a query; DnsServer.Restart, DnsServer.Origin and DnsServer.Answering are the
--   laws.
-- - Web (internal/web/server.go): Web.Listener has Move; Web.State the state of the whole
--   program, System, and what a request meets, Env; Web.Import the import of rules; Web.Settings
--   and Web.Applying the changes of the settings, with the listeners that follow, Web.Setup the
--   first setup; Web.RuleRequests the handlers that change the rules, and Web.Handlers the
--   others, but for those of Web.Events, which show the running program and stream its events,
--   over the data of Web.Shown; Web.Localize has the texts of errors in the language of the
--   browser; Web.Routes the table of routes with protect. Web.Moving, Web.Importing,
--   Web.Imports, Web.Restoring, Web.Settling, Web.Editing, Web.Serving, Web.Watching,
--   Web.Guarding, Web.Sealed, Web.Streaming and Web.Localized are the laws, over the invariant
--   of Web.Invariant; Web.Samples has the values of the tests.
-- - Update (internal/update/update.go, internal/buildinfo/buildinfo.go): Update.Defs has
--   ParseStable, Compare, Check and StableVersion; Update.Order, Update.Printing and
--   Update.Latest the laws.
-- - SystemInfo (internal/systeminfo): SystemInfo.Defs is monitor.go; SystemInfo.Sampling has the
--   readings of sample_linux.go, SystemInfo.Platforms those of sample_windows.go and
--   sample_other.go; SystemInfo.Percent and SystemInfo.Reading the laws.
-- - Program (cmd/kaven-dns/main.go): Program.Defs has the start, the events while it runs and
--   the end; Program.Runs the law of the whole, and Program.Kept and Program.Utf8 what stays
--   from one run to the next.
-- - Each component's Tests module runs the theorems at concrete inputs.
--
-- How the code is read. A method takes the state and returns the new one beside its result; a
-- lock makes each method one step. A reading of the clock is an argument: nanoseconds in the
-- cache, milliseconds elsewhere. Counters wrap at 2^64. Texts are bytes, and letters and spaces
-- are those of ASCII. Records of answers are values, so a copy is the value itself. What the DNS
-- library, the network, the random source, the libraries for passwords and the operating system
-- answer is an argument, in the resolver the record World, in the console the record Env. A
-- socket is a number, and the process a list of those that are open. The order in which the
-- replies of the upstreams arrive is a function there, and the theorem on it asks that every
-- reply arrives and no other.
--
-- Bounds and fuel. The eviction loop of the cache runs on as many rounds as there are entries
-- and one more; the theorems show that it ends before. The resolver recurses on the number of
-- CNAME levels left, four at first, as maxCNAMEDepth says. An IPv6 address is read in nine
-- rounds at most, and a number is printed with twenty digits at most, which a uint64 never
-- exceeds. The theorems on the numbers of history entries ask for fewer than 2^64 records.
--
-- A quotient of floats stands for its exact value: a percentage of the processor is a number of
-- tenths, an average a fraction. A step of a stream is one tick, with the calls of other
-- requests before or after it. A text in Chinese is a constructor that says what it means.
--
-- What a file gives back is the value that was written, as package encoding/json does for text
-- in UTF-8; Program.Kept takes the package as the argument Json, Program.Utf8 says which bytes
-- are UTF-8, and its theorem asks for such text, since other bytes come back changed. Shutdown
-- of a listener closes its socket, as the DNS library documents, also where the program ignores
-- its error. The differences of 64 bits in SystemInfo wrap around.
--
-- Not modelled: JSON texts (a value stands for its text), the loops of the DNS library on its
-- sockets, the lines that the program logs, the HTTP headers, the shutdown of the HTTP server,
-- the web assets (internal/webassets) and the deployment files. They are I/O, or data. The texts
-- of Web.Localize are not put into the answers of the handlers, which name their messages.
pub mod Prelude
pub mod Go
pub mod Dns
pub mod Persist
pub mod Cache
pub mod Config
pub mod Rules
pub mod History
pub mod Resolver
pub mod LogStore
pub mod Auth
pub mod Update
pub mod SystemInfo
pub mod DnsServer
pub mod Web
pub mod Program
