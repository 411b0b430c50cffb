-- ===== src/Lib.antt =====
-- A library about the privileged side of the program's strict mode: the Broker that guards chosen
-- Windows applications with network filters, the contract that its clients speak, and the Agent's
-- retries.
--
-- Parts and files (paths from the repository's root):
--   Contract   services/strict-contract/src/lib.rs: policies, ingresses, frames, their validation, the
--              canonical form and its digest, identity migration. `sha2` and `serde_json` are the
--              parameters `Codec` and `FrameCodec`.
--   Broker     services/strict-broker/src/lib.rs: `AppIds`, `Marker` and `Host` have the data and the
--              three traits, `Engine` the operations of `BrokerEngine`, `Safety` the invariant over
--              all calls, `Outcome` what each operation leaves.
--   Dispatch   services/strict-broker/src/dispatch.rs: one request on engine and forwarding probe.
--   Session    services/strict-broker/src/session_registry.rs: the owner session.
--   Auth       services/strict-broker/src/ipc_auth.rs: from a frame to an authorized request.
--   Udp        services/strict-broker/src/strict_udp_frame.rs: `Replay` has the replay window, `Frame`
--              the frames of the UDP data channel. HMAC-SHA256 is a parameter.
--   Redirect   services/strict-broker/src/redirect_context.rs: what the driver says of a redirected flow,
--              read against the lease, and the renewal of a lease.
--   Recovery   services/strict-broker/src/recovery_file.rs: the file behind the engine's recovery store
--              (`file_store`). `std::fs` is the parameter `FileSystem`; `FileSystemLaws` states what
--              its documentation promises, an atomic replacement among it. `serde_json` is a
--              parameter too.
--   Wfp        `Keys` and `Plan`: services/strict-broker/src/wfp_plan.rs, the filters of a policy.
--              `Inventory` and `Backend`: services/strict-broker/src/planned_wfp_backend.rs, the
--              engine's filter backend (`planned_backend`) over a control plane, a parameter.
--              `Enforcement`: the engine over it.
--   Socks      services/strict-broker/src/socks_probe.rs: the SOCKS5 exchange with the Core, over a TCP
--              stream with a clock (`ByteStream`), a parameter.
--   Retry      services/agent/src/strict_retry.rs: the backoff of the Agent's recovery.
--   Package    services/strict-broker/src/package_manifest.rs: the manifest of the signed package, with
--              `serde_json` as a parameter.
--   Text, Bits, Bytes, Net, Fallible, Action and Common are shared: characters as code points, binary
--   digits, byte strings and integers in them, socket addresses, the errors of `anyhow`, methods on `&mut self` that may fail, tests and lists.
--
-- A request goes through `authenticate`, then `dispatch` runs its command: forwarding resources by the
-- probe, everything else by the engine, which works on a backend, a store and a verifier. Those three
-- are fields of `Host`, each with a state of its own and free to fail at every call, so that what is
-- shown of the engine holds for any of them. A method returns its result with the state that it
-- leaves, also when it fails.
--
-- Numbers are natural numbers: `u64` sums that the source checks are checked here (`checked_add`),
-- the shifts of the replay window are cut to 64 bits, durations are nanoseconds. Sets of
-- capabilities are functions to Bool, and sets of strings lists without repetition. An error keeps its message, its context and the typed
-- cause that `downcast_ref` finds; messages with formatted numbers are shortened. Sets of
-- filter keys are compared without regard to order and repetition. No recursion uses fuel: the 32
-- attempts at a temporary file are the source's own bound.
--
-- Not modelled: the Windows layer of the Broker, the rest of the Agent and the Helper, much of
-- which calls the operating system; the first opening of the recovery directory; the Broker's datagram wire; logging; and the rest of the application
-- (user interface, other languages).
pub mod Common
pub mod Fallible
pub mod Action
pub mod Bits
pub mod Text
pub mod Bytes
pub mod Net
pub mod Contract
pub mod Broker
pub mod Auth
pub mod Dispatch
pub mod Session
pub mod Udp
pub mod Redirect
pub mod Recovery
pub mod Wfp
pub mod Retry
pub mod Socks
pub mod Package
pub mod Tests
