-- ===== src/Lib.antt =====
-- The Wasm Cloud Platform: a node that runs WebAssembly apps behind a reverse proxy.
--
-- An operator's configuration resolves to the policy of an instance (crates/common/src/policy.rs:
-- Policy.antt). The supervisor admits an app whose ceilings fit the node and an execution whose fuel
-- fits its budget (crates/supervisor/src/spawn_runtime.rs and scaling.rs: Supervisor/Admission.antt)
-- and gives each instance a port (port_alloc.rs beside them: Supervisor/PortAlloc.antt). It keeps the
-- instances of each namespace and lets an app connect to those of its own (network.rs and
-- network_interceptor.rs beside them: Supervisor/Network.antt; the ids of apps,
-- crates/common/src/types.rs: AppId.antt).
--
-- The sandbox builds an enforcer from the policy and counts what the app does
-- (crates/runtime/src/policy_tracker: Runtime/PolicyTracker.antt and its children); every socket
-- operation passes a check composed of both (crates/runtime/src/executor/socket_policy.rs:
-- Runtime/SocketPolicy.antt), and every growth of memory and tables a limiter that reports to the
-- same counters (crates/runtime/src/limits.rs: Runtime/MemoryLimiter.antt).
--
-- In front of the apps the proxy finds the app of a host and a path
-- (crates/proxy/src/router/mod.rs: Proxy/Router.antt), takes one of its instances in turn
-- (crates/proxy/src/upstream/mod.rs: Proxy/Upstream.antt) and keeps a circuit breaker for each app
-- (crates/proxy/src/gateway/circuit_breaker.rs: Proxy/CircuitBreaker.antt). A request that this node
-- does not take goes to the node with the least load (crates/proxy/src/node_table.rs:
-- Proxy/NodeTable.antt).
--
-- The node keeps what it needs in a redb file (crates/storage/src: Storage/Tables.antt for the tables
-- and the calls as chains of transactions, Storage/Apps.antt, Routes.antt, Records.antt and
-- Management.antt for the operations, Storage/Migrations.antt, Storage/Gc.antt for the garbage
-- collector). Every request of an app is billed: the records are a hash chain in the store
-- (crates/billing/src and crates/common/src/billing.rs: Billing.antt, its writer task in
-- Billing/Writer.antt, Billing/Report.antt, Billing/Export.antt and Billing/Queries.antt).
--
-- Before a request is routed, the rate limiter asks the token buckets of its app and of its address
-- (crates/proxy/src/rate_limiter.rs: Proxy/RateLimiter.antt). Floating point is an interface there;
-- a theorem that counts tokens asks that whole numbers below 2^32 are exact in it.
--
-- The deploy ingresses elect a leader by a lease in a key-value bucket
-- (crates/deploy-ingress/src/ha.rs: Ingress.antt, one function for each call of the bucket;
-- Ingress/Interleaving.antt has the tasks of several ingresses as a step relation, in which a lease
-- can age away and an answer can be lost). The bucket is an interface, and Ingress/Elections.antt
-- names what its documentation says of revisions.
--
-- A route's policy is checked against the roles and scopes of the token (crates/proxy/src/gateway:
-- Proxy/Authz.antt, from the claims of a token that is valid to the answer).
--
-- The admin API counts its requests for the address of the peer, or the one that a trusted proxy
-- names (crates/proxy/src/auth_middleware/rate_limit.rs and client_ip.rs: Proxy/AdminLimiter.antt).
--
-- Conventions. A method that changes `self` returns the new state; definitions have the names of
-- the functions, fields and types that they model, except where a method has the name of a map
-- operation (`remove` of the upstream registry is `remove_addr`). `HashMap` and `DashMap` are
-- association lists (Common/Maps.antt), a `BTreeSet` its members in order. Machine words are natural
-- numbers, with the wrap-around of release builds written out (Common/Words.antt); `usize` has 64
-- bits. An `Instant` is a number of nanoseconds, and a call takes one instant for all its readings
-- of the clock. Log lines and `Display` texts are left out. A text that the program looks inside, a
-- host, a path or an id, is its bytes.
--
-- Parameters: the parser and the membership test of the `ipnet` crate, the embedder's extra socket
-- check, the entries that redb fails to read or remove where the code goes on without them,
-- SHA-256, serde_json's printer and parser of the writer's cursor, `f64` and the key-value
-- bucket of the ingresses. No definition runs on fuel: every loop here is over a list or ends at
-- once.
--
-- Interleaving: the calls of the policy tracker are atomic steps, except in
-- Runtime/PolicyLaws/Interleaving.antt, where the reservation and the release of an outbound
-- connection are split into their loads, exchanges and additions, one thread for each store. The
-- router and the upstream registry hold a lock for the whole of each change. The ingresses
-- interleave between any two calls of the bucket.
--
-- Not modelled: what is I/O or glue around a library (the HTTP service, wasmtime, redb, NATS, OCI
-- transfers, eBPF programs), and, for now, the configuration loader, the node's handlers, the
-- validation of tokens, the deploy ingress's server and the internal gateway.
mod Common
mod AppId
pub mod Ingress
pub mod Policy
pub mod Runtime
pub mod Proxy
pub mod Supervisor
pub mod Storage
pub mod Billing
