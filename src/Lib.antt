-- ===== src/Lib.antt =====
-- wqc-node is a worker of a distributed quantum simulator. It bids on tasks that an orchestrator
-- announces over libp2p, accepts sub-tasks, lets wqc-core compute and prove them, and delivers
-- results and leaf PCS bundles. This library models the parts that decide, and leaves sockets,
-- timers and HTTP as what they answer.
--
-- Bidding. src/transport/p2p/bid_client.rs (Bid/Client) asks src/domain/bid.rs (Bid) and
-- src/domain/features.rs (Features) whether the node can serve a task, and src/domain/work.rs
-- (Work) whether the queue leaves room for its work; then it signs a bid with a mined lottery
-- proof. Whether an announcement is trusted is decided by the signature checks of
-- src/domain/p2p.rs (P2p); the crates behind them are the record Crypto. src/config.rs is the
-- record Config, and src/memory_budget.rs (Memory) gives the widths that a bid carries.
--
-- Start. src/main.rs (Startup/Process) reads the environment into a configuration (src/config.rs,
-- Config/Environment; src/domain/token.rs, Token, for the stake, and src/domain/operator.rs,
-- Operator, for the operator's key), asks core for its gates and its memory
-- (src/transport/http/handlers.rs, Startup/Status), finds the orchestrator
-- (src/infra/orchestrator.rs, Startup/Bootstrap) and the place of the node (src/domain/geo.rs and
-- src/infra/geoip.rs, Startup/Location), and puts the pending sub-tasks of the database back into
-- the queue before the worker runs. src/transport/p2p/host.rs (Host) then keeps the link to the
-- orchestrator, as a state with one function for each event; what its loop can reach is an
-- inductive family.
--
-- Dispatch. The stream handlers of src/transport/p2p (Handlers/Streams) check the peer and the
-- signature of a message, which for a dispatch is over the bytes of Dispatch/Payload, with a
-- circuit written as Go's encoding/json does (Dispatch/GoJson, both src/domain/p2p.rs).
-- src/application/accept_task.rs (Accept) checks a sub-task with src/domain/validation.rs
-- (Validation, on the JSON values of Json), stores it in src/infra/storage.rs (Storage, with a
-- module for each table, on the SQL of Storage/Rows; src/application/task_prune.rs, TaskPrune,
-- deletes old rows), counts it in src/application/state.rs (State) and in the ledger, and puts it
-- in the queue. src/application/worker.rs (Worker) takes it from there, calls core through the
-- health gate of src/infra/core_client.rs (Core), and hands the payload to
-- src/application/result_outbox.rs (ResultOutbox; ResultOutbox/Message for the JSON of
-- src/domain/result.rs, ResultOutbox/Retry for the loop that sends again). The records that travel
-- are those of src/domain/models.rs (Models).
--
-- Leaf PCS. After a result the proof is retained by src/application/pcs_outbox.rs
-- (PcsOutbox/Requests); a nomination or an open call (src/domain/pcs.rs and
-- src/application/pcs_open_call.rs, Pcs; the stored jobs, Jobs) starts a run (PcsOutbox/Run),
-- which may fetch a leaf proof (src/infra/cas_client.rs, Cas).
--
-- State and steps. Shared state is a record, State.AppState; a handler is a function from it to an
-- answer and the next one, and each await on the outside is an argument: what core, the blob
-- store, the proxy or SQLite answers. A statement of the database fails where the list
-- Storage.faults says so. Handlers run one at a time, except that Accept takes what others do to
-- the database between its lookup and its insertion, and PcsOutbox/Requests what they do between
-- two lookups. Errors are constructors in place of texts; where the code reads the text of an
-- error, the text is a parameter.
--
-- Numbers. Words are naturals with their wrap-around written out; an i64 is an integer (Base/Int).
-- A f64 is its bits, and its operations are the record Base/Float, with no law but those that a
-- theorem names. Strings are lists of code points (Base/Text), maps are association lists
-- (Base/Map), bytes are Base/Bytes.
--
-- Fuel. A gate nested in an IF is a part of the parameters around it, so fuel above the size of
-- the parameters is enough. The lottery needs fuel for the readings of the clock up to the end of
-- its window. The wait for core has a round for each second of its limit and one more, which a
-- clock that goes on by a second for each round does not outlast. The expansion of the operator's
-- key has a round for each byte that is asked for, and a round adds 32. All other loops are
-- structural; of the endless loops that send results and prune tasks the model has any number of
-- rounds.
--
-- Not modelled. Sockets, streams and HTTP themselves; the construction of the libp2p swarm;
-- metrics, which nothing but a bid reads; the banner and the log; the JSON that serde derives for
-- the records. Tasks and jobs in the database are values in place of their JSON.
--
-- Base has what the modules share, and Tests the runs of the theorems on concrete data.
pub mod Base
pub mod Memory
pub mod Features
pub mod Core
pub mod Json
pub mod Validation
pub mod Models
pub mod Jobs
pub mod Storage
pub mod Work
pub mod Crypto
pub mod P2p
pub mod Config
pub mod Bid
pub mod Pcs
pub mod State
pub mod Cas
pub mod Accept
pub mod PcsOutbox
pub mod ResultOutbox
pub mod Worker
pub mod Dispatch
pub mod Handlers
pub mod Token
pub mod Startup
pub mod TaskPrune
pub mod Tests
pub mod Operator
pub mod Host
