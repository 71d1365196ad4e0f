-- ===== src/Lib.antt =====
-- xmesh: a Controller keeps the configuration and the reports of Gateways and Agents; a Gateway gives
-- its users' streams to tunnels that Agents hold open, and each tunnel carries framed messages. The
-- modules follow the Go packages.
--
-- Scheduler is internal/scheduler/scheduler.go: `Pool` with Add, Remove, UpdatePolicy, SetReady,
--   UpdateProbe, ObserveWrite, AcquireLinks, Acquire, Release and Snapshot as functions of the same
--   names. Pointers are indexes into a list of sessions and a list of leases, a mutex makes each
--   method one step, and History.Step is any such call. A map is a list of its entries; where Go
--   leaves the order of a loop open, the list's order is any.
-- Protocol is internal/protocol/protocol.go: write_message, read_message, write_datagram,
--   read_datagram over write_all and big-endian numbers. A Go string is its bytes. The loop of writeAll
--   has fuel, the length of the buffer; each round but the last takes at least a byte.
-- Gateway.UdpQueue is internal/gateway/udp_queue.go: offer and take alone, and in Steps their atomic
--   actions, interleaved between any number of goroutines.
-- Audit is internal/audit/events.go: the ring of sixty one-second buckets, and its summary.
-- Model is internal/model/model.go: the Controller's state, as records.
-- Store is internal/store: Update, and the encryption of subscription tokens before the file is written.
-- Controller.Usage is internal/controller/usage.go: sampling and pruning of traffic counters.
-- Controller.Upgrades is internal/controller/node_upgrades.go and node_upgrade_recovery.go: what the
--   handlers cancelUpgrade, updaterTask, updaterReport and resumeUpgrade do to the state, and the wait
--   of a batch for its Links. Each function is the body of a transaction of the store; an error
--   throws its changes away. updaterTask has its snapshot and the times that it reads as arguments;
--   elsewhere the clock stands still during a transaction. Times are nanoseconds since
--   Go's zero time, which is 0.
--   Pairing has pairUpdater, updaterPair, authenticateUpdater, updaterHeartbeat and the transaction
--   at the end of prepareUpgradeBatch; authentication's snapshot is the transaction's state. Create
--   has createUpgrade and Manual startManualUpgrade, with the random IDs as arguments;
--   Histories.Transaction is any of these that succeeds.
-- Controller.Releases is the part of internal/controller/releases.go that names versions and assets.
-- Controller.Nodes is internal/controller/node_management.go, route_management.go, embedded_agent.go
--   and the handlers of admin_handlers.go and upstreams.go that delete, switch or attach: Removal has
--   removeGrant, removeLink, removeAttachment and removeNodeReferences, Handlers and Switches the
--   handlers, and Edits.Edit is any of them that succeeds. A loop that deletes from a map visits the
--   entries that the map had before.
-- Controller.Retired is internal/controller/retired_usage.go.
-- Agent.Policy is internal/agent/policy.go, and Egress is internal/egress/policy.go, the refused ports.
-- Audit.Quota is internal/audit/store.go: Append, rotate, prune and Enforce over the sizes of the files
--   that its files() lists, and the errors of the file system.
-- Gateway.Socks is internal/gateway/socks.go: the messages of SOCKS5 as bytes.
-- Auth is internal/auth/auth.go: the hashes of secrets, and in Sessions the cookie of a session.
-- Common has what they share: tests, lists, dictionaries, Go's int and the order of strings.
--
-- Parameters, for what is not in the repository: `Floats`, the float64 values that scores take,
-- finite and linearly ordered; `Writer`, an io.Writer that takes a front part of a buffer; `Codec`,
-- encoding/json at a type, which decodes what it has encoded, with strings that are not UTF-8
-- replaced as `Utf8` says; smux's IsClosed, as a function in the request; strings.ToLower;
-- strconv's decimal text in `Settings`; `Net`, the net and net/netip packages; `Hashing`, `Sealing`
-- and `Signing`, AES-GCM, SHA-256, HMAC, base64 and decimal numbers; `Releases` and `Encodings`,
-- the parsers of URLs, versions and hexadecimal text; and what the file system answers in
-- Audit.Quota. Machine integers wrap as uint64 where the program adds to them without a bound.
--
-- Not modelled: network and file input and output, HTTP requests and their authentication, the
-- panel, the forms that create and edit nodes, and the packages that start other programs.
pub mod Common
pub mod Egress
pub mod Protocol
pub mod Scheduler
pub mod Gateway
pub mod Audit
pub mod Model
pub mod Controller
pub mod Agent
pub mod Auth
pub mod Store
