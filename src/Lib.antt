-- ===== src/Lib.antt =====
-- Nitella, a reverse proxy that a phone controls: its nodes decide on every connection, and a hub
-- relays between nodes and phones without being trusted. This library models the parts that
-- decide.
--
-- A node (pkg/node) takes a connection in handleConn of listener.go. The global rules
-- (global_rules.go) may refuse it or lift a block. The rules of the listener (rules.go) are tried
-- from the highest priority down; the limiter of the one that matches (ratelimit.go) may turn it
-- into a block. A rule may ask for an approval (approval.go): a decision that is stored counts,
-- or else a request waits for an administrator. Commands of an administrator pass the anti-replay
-- cache (antireplay.go). Services behind the node are probed (health/checker.go). The hub limits
-- its calls by address and by the tier of a routing token (pkg/hub/ratelimit, pkg/tier), knows
-- its users by signed tokens (pkg/hub/auth) and its nodes by pinned certificates, relays commands
-- to nodes and the messages by which a node and a phone pair, and keeps the encrypted revisions
-- of proxies (pkg/hub/server, pkg/hub/store). What the two ends send each other is encrypted and
-- signed (pkg/crypto). A phone sends a command to a node directly, by a connection between peers
-- or by the hub (pkg/core). A service of its own tells where an address is (pkg/geoip).
--
--   Base, Net            lists, texts, integers and maps, and the addresses of Go's net package
--   Node/RateLimit       pkg/node/ratelimit.go: Check, TrackConnection, ReportResult, cleanup
--   Node/GlobalRules     pkg/node/global_rules.go: BlockIP, AllowIP, Remove, Check, List
--   Node/AntiReplay      pkg/node/antireplay.go: ValidateCommand and the cleanup
--   Node/Approval        pkg/node/approval.go: Key is buildKey, Cache is ApprovalCache with its
--                        live connections, Manager is ApprovalManager, of
--                        which Stored are the calls that go to the cache
--   Node/Rules           pkg/node/rules.go: Regexes is getCompiledRegex, Texts is matchString,
--                        Times is matchTimeRange, Matching is MatchRule
--   Node/Listener        pkg/node/listener.go: Table is AddRule, RemoveRule and evaluateRules,
--                        Decision and Ending are handleConn, Traffic is connection tracking
--                        and the counters
--   Node/Cleanup         pkg/node/cleanup.go: Register and runDueTasks
--   Node/Health          pkg/node/health/checker.go: the monitors and check, Probes is checkHTTP
--   Hub/RateLimit        pkg/hub/ratelimit: Address is ip.go, Tiered is ratelimit.go
--   Hub/Auth             pkg/hub/auth/jwt.go: the token manager
--   Hub/Pairing          pkg/hub/server/pairing_server.go: PakeExchange and its cleanup
--   Hub/Proxies          pkg/hub/store/store.go: the tables of proxies and revisions; Requests are
--                        the handlers of pkg/hub/server/mobile_server.go that use them
--   Hub/Access           pkg/hub/server/server.go: ensureNodeRegistered; Calls are the interceptors
--   Hub/Commands         pkg/hub/server/mobile_server.go and node_server.go: SendCommand,
--                        ReceiveCommands and RespondToCommand
--   Hub/Attempts         pkg/hub/server/server.go: the limits on pairing and registration
--   Geo                  pkg/geoip: Cache is cache.go, Manager is Lookup with its providers
--   Core                 pkg/core: the state of controller.go; Sending is SendCommand of command.go and
--                        local.go
--   Crypto               pkg/crypto: envelope.go with the signatures of signing.go; Curve has the conversions of keys
--   Tier                 pkg/tier/config.go
--
-- A struct is a record and a method a function that returns the new record. Names are those of
-- the source in snake case. A map is an association list, and its order stands for the one in
-- which Go happens to iterate over it. Times are nanoseconds since Go's zero time, each reading
-- of the clock is an argument, and a time span stops at 0 where the clock goes back, but is
-- saturated like a Duration in Node/AntiReplay, where times count from 1970 and the time of a
-- command is not bounded. Durations, rates and limits that the configuration gives are taken as
-- not negative; counters of bytes and decided durations are bit patterns of 64 bits. Methods
-- under a lock are single steps; where a handler releases the lock, as for the wait for an
-- approval, what others do in between is an argument. All recursion is on the structure of lists
-- and texts, so that no fuel is needed. Texts that the program only compares are native texts,
-- those that it parses are lists of code points.
--
-- Parameters of the model are the compiler of patterns and what a pattern makes of a text within
-- its time, the digest of a certificate, the certificates that a TLS handshake yields, what the
-- sender of alerts answers, the tier that the store yields for a token, the library that signs
-- and parses tokens, the encoding, the parsing and the chains of certificates, the primitives of
-- cryptography and the generator of keys, the clients of the core and its encodings of messages,
-- the providers of places, the dials and requests of probes, where a sum in the database fails,
-- and where a node cannot be read or saved. Its tables are otherwise lists of rows that do not
-- fail. Not modelled are sockets, TLS set-up, events, statistics and logs, since they do not
-- decide, and the other packages: the manager of listeners and the mock services of a node, the
-- databases and remote providers of the geo service, the rest of the hub's server and store, its
-- certificates, the hub client, signed payloads with certificates and stored keys, the pairing of
-- the two ends, the peer-to-peer transport, the services of the phone and the commands.
pub mod Base
pub mod Net
pub mod Core
pub mod Crypto
pub mod Geo
pub mod Hub
pub mod Node
pub mod Tier
