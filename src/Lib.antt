-- ===== src/Lib.antt =====
-- Verification of the ZFS evacuation controller, a Kubernetes controller that moves a zfs-localpv
-- volume from one node to another and rebinds its claim to the copy.
--
-- The program's parts, and the files that model them (paths of the repository, then modules):
--   * src/crd/openebs.rs, src/crd/zfs_evacuation.rs: the resources. Crd/Openebs, Crd/Evacuation; the
--     lists of the attach lock with `lock` and `unlock` in Crd/Params. Kube holds the fields of the
--     Kubernetes types that the controller reads or writes.
--   * src/controller/mod.rs: configuration, `write_status`, `update_params`, and what is read of
--     nodes, pods and quantities. Controller/Context, Nodes, Pods, Quantity; `adapt_to_target` and
--     `target_zfsvolume` stand in Controller/Steps.
--   * src/controller/state_machine.rs: `reconcile` in Controller/StateMachine; `advance`, `fail`,
--     `wait`, the finalizers and `blocking_reason` in Controller/Steps; the phases in
--     Controller/Phases (Pending, Lock, Quiesce, Select, Finish).
--   * src/controller/transfer.rs: Controller/Transfer (Verdict, Crs, Attempt, Snapshot).
--   * src/controller/pv_swap.rs: Controller/PvSwap (Render, Swap).
--   * src/controller/abort.rs: Controller/Abort.
--   * src/controller/target.rs: Controller/Target (Ledger, Judge, Choice).
--   * src/controller/colocation.rs, src/controller/placement.rs: Controller/Colocation and Placement.
--   * src/controller/trigger.rs: one poll, `tick`, in Controller/Trigger.
--   * src/main.rs: the configuration and the order of the start, in Start.
--   * src/leader.rs: `run` over its rounds, `try_acquire` by the answers to its read and its write
--     (Leader, Leader/Fencing); replicas that contend for the Lease, as steps of a cluster with one
--     clock and without deletions of the Lease, in Leader/Cluster. Its server compares the version that
--     a written Lease carries with that of the stored one, and takes a Lease without version as it is.
--   * src/transfer/relay.rs: the address ranges and the accept loop in Relay; the task of
--     `Relay::spawn` in Relay/Splice, as the steps of its reader and its writer in any order. Masks
--     and Ranges are about the ranges; Stream, Pipe, Peers and Buffer about the task.
--
-- The state is the status of the evacuation object, which only the controller writes: each
-- reconciliation starts from the status that is recorded and runs the handler of its phase, which
-- writes the next one. An optional object without status stands for the default status.
--
-- A handler is a tree of API calls (Effect). The API server, and through it the node agents, the
-- scheduler, the users and the other controllers, answers each call with any value or any error; the
-- clocks, the random numbers and the table of relays are sensed with any content. A statement about
-- every branch of a tree therefore holds under every such behaviour, and for a controller that is
-- stopped after any call. A status write that is answered with an error counts as not recorded, and
-- a reconciliation starts from the recorded status, as the watch cache delivers it when it is
-- current. Requests of an evacuation are not run concurrently, as the runtime promises.
--
-- `Authority` states what a recorded status authorises, phase by phase (Diagram, Warrant), shows that
-- every handler keeps to it, and draws the promises on whole histories from that (History,
-- Promises). `Behaviour` holds the properties of single routines: among them Unwinding and Reclaim are
-- about an abort, Completion about the cleaning after the move, and Obliging about the end of both
-- where every call is accepted. There the answers are a function of the step and the call
-- (`Surroundings`), and the hypotheses say what they show. `Tests` has sample objects.
--
-- Library code is a parameter (`Libs` in Controller/Context): JSON of a PV, the text of an API error,
-- the parsing of addresses, and 64-bit floats by their bit patterns. Logging is left out. An ASCII
-- text has one code point per byte. Maps with text keys are association lists.
--
-- Numbers are natural numbers: the byte counts that the source adds as u128 are sums of u64 values;
-- where the source casts to u64 or increments a u32, the remainder is written out. Subtraction stops at
-- zero where the source has `saturating_sub` or has compared before. Loops are recursion on the list
-- that the source iterates over; the eight rounds of `update_params` are recursion on a counter, as
-- the source's `for` is; `show` recurses on fuel above the number of digits.
--
-- Not modelled: of src/main.rs what follows the election, the sleeps of src/leader.rs, the binding of
-- the relay's ports, the endless loop that runs `tick` every 15 seconds, and the tests.
pub mod Base
pub mod Kube
pub mod Crd
pub mod Effect
pub mod Relay
pub mod Leader
pub mod Start
pub mod Controller
pub mod Authority
pub mod Behaviour
pub mod Tests
