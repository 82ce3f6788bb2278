-- ===== src/Lib.antt =====
-- A model of etcd-client, an asynchronous client for the etcd v3 API, and theorems about it.
--
-- The program. A `Client` holds one client per service of etcd (src/rpc). Each builds a request from
-- its options and hands it to `ClientCaller::do_call` (src/caller.rs), which sends it by the generated
-- stub and, when asked to, refreshes the token of an expired session. On the way out the interceptor
-- (src/intercept.rs) adds the token and the leader requirement to the headers; below it a balanced
-- channel picks a connection, which src/openssl_tls/backoff.rs takes out of use after a failure; with
-- OpenSSL, a task of src/openssl_tls/transport.rs makes the connections. Clones of a client share its
-- token and its credentials. The clients of src/namespace put a prefix before every key that goes out
-- and strip it from every key that comes back, with the byte operations of src/vec.rs.
--
-- The files.
--   Prelude: library names, and numbers, lists and integers over the native numbers.
--   Bytes: byte strings, their order, and the key intervals that proto/rpc.proto documents.
--   KeyRange: `get_prefix` and `KeyRange` of src/rpc/mod.rs; Prefix and Build are about them.
--   VecExt: src/vec.rs on the contents of a vector; VecExt/Raw: the unsafe bodies on its memory, where
--     an access outside the cells is `none`. Strip, Edge, Interval and Leak are about the former.
--   Error, Exec: src/error.rs, with its texts in Error/Display, and asynchronous methods as functions
--     from the state before to the result and the state after. An error keeps the state, so effects
--     before it stay.
--   Caller: src/caller.rs. `Session` is what the clones of a client share, and the rest of the world.
--     Tokens and Retry are about one call. For clones that run at the same time Caller/Clones has the
--     steps of the calls that write the token or the credentials, Caller/Jobs those of `do_call`.
--     Caller/Handles has the callers with the cells of a heap that `Arc<RwLock<_>>` stands for; a
--     `Session` is the contents of two of them.
--   BackOff: src/openssl_tls/backoff.rs, with times in nanoseconds and the clock's readings as
--     arguments; the panic of the doubling of a duration is `none`.
--   Poison: src/lock.rs, which lets a `Session` have plain fields.
--   Transport: src/channel.rs, the choice among the transports.
--   OpenSsl: src/openssl_tls/transport.rs, over a record of what is called of OpenSSL and hyper.
--   Rpc: the shared messages of src/rpc/mod.rs.
--   Kv: src/rpc/kv.rs, a module per operation, and the client in Kv/Client. A wrapper of a message has
--     the message's fields. `Kv.Txn.prefix_request` is `PbTxnRequest::prefix_with`.
--   Namespace: src/namespace/kv.rs; Namespace/Store has a store of one namespace alone and what the
--     operations mean there; its children compare a namespace client with it.
--   Intercept: src/intercept.rs.
--   Lease: src/rpc/lease.rs and src/namespace/lease.rs.
--   Permission: `Permission` of src/rpc/auth.rs; Permission/Wire is about its message.
--   Auth: the rest of src/rpc/auth.rs; the client is in Auth/Client. Auth/Scopes is about permissions
--     that are granted and revoked.
--   Lock, Cluster, Election, Maintenance: src/rpc/lock.rs, src/rpc/cluster.rs, src/rpc/election.rs and
--     src/rpc/maintenance.rs.
--   Service: the methods of proto/rpc.proto, proto/v3lock.proto and proto/v3election.proto. A call of a
--     generated stub is a call of `Channel.rpc` with the metadata that the interceptor leaves;
--     Service/Stubs makes the stubs of all services from one such channel.
--   Watch: src/rpc/watch.rs; Watch/Stream: its `WatchStream`; Watch/Requests is about what goes out on
--     its channel. A call that streams its requests is given the number of their channel.
--   Polling: the polling form of the response streams of src/rpc/watch.rs, src/rpc/lease.rs and
--     src/rpc/election.rs.
--   Client: src/client.rs. Client: the connection options and `build_endpoint` under each feature set;
--     Client/Connect: connecting, and adding and removing endpoints; Client/Members: the URLs of
--     `member_add`; Client/Forwards: the clients that `build_client` makes, and the methods that
--     forward to them; Client/Requests: those of one request and one answer as data;
--     Client/Operations: them as one function. Endpoints, Connecting and the children of
--     Operations are about them; Operations/Concurrent has the operations of clones at the same time.
--   Examples: the unit tests of the source, and the theorems at concrete inputs.
--
-- Conventions. A method that changes `self` gives the changed value; `take_header` gives it beside what
-- it takes. A failed assertion or an unwrapping of nothing is `none`. An `i64` is an integer without
-- bounds, as the client only passes it on; the only arithmetic on bytes is `wrapping_add`, written with
-- its modulus, and an increment below 0xff. There is no fuel: all loops run over lists.
--
-- Parameters. The generated stubs, the authentication service, the parsers of text, the metadata map of
-- tonic, its endpoints and balanced channel, the allocator and the error types of other crates are
-- arguments. A hypothesis on one of them is a record of its documented behaviour: `Leaves`,
-- `LeavesCalls`, `Counters`, `RangeServer`, `StoreServer`, `IsMultimap`, `Delivered`, `Received`,
-- `IsQuiet`, `Allocator`, `Meter`, `Serves`.
--
-- Not modelled: the wiring of tower's balancer and of the builders of balanced channels; conversions
-- to text that are not checked, the pointer cast of `AlarmResponse::alarms`, and generated code. The store of Namespace/Store has no leases that
-- run out: within a namespace only its client writes. In Caller and in the clients a `do_call` runs
-- without interruption; Caller/Clones and Caller/Jobs have the calls with other clones between their
-- steps. A request and its answer are one step there.
pub mod Prelude
pub mod Bytes
pub mod KeyRange
pub mod VecExt
pub mod Error
pub mod Exec
pub mod Caller
pub mod Poison
pub mod BackOff
pub mod Transport
pub mod Polling
pub mod OpenSsl
pub mod Rpc
pub mod Kv
pub mod Namespace
pub mod Intercept
pub mod Lease
pub mod Watch
pub mod Permission
pub mod Auth
pub mod Lock
pub mod Cluster
pub mod Election
pub mod Maintenance
pub mod Service
pub mod Client
pub mod Examples
