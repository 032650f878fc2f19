-- ===== src/Controller/Transfer/Attempt.antt =====
-- src/controller/transfer.rs: `transferring`, `retry_or_fail`, `start_attempt`, `create_restore`.
use zfs_evacuation_controlle.Base.{
  ℕ, ◌+◌, ◌^◌, ◌%◌, String, Bool, false, not, Option, none, some, List, [], ◌∷◌, ◌++◌, map, collect,
  contains, get_elem?, and_then, map_option, is_some, unwrap_or, is_empty, leb, ◌==◌, show, hex,
  ◌<>◌, if◌then◌else◌,
}
use zfs_evacuation_controlle.Kube.{Node}
use zfs_evacuation_controlle.Crd.Openebs.{
  ZfsVolume, ZfsBackup, ZfsRestore, ZfsRestoreSpec, named, new_restore, bkp_status_init,
}
use zfs_evacuation_controlle.Crd.Evacuation.{
  Evacuation, EvacuationStatus, TransferStatus, Phase, SourceInfo, TargetInfo,
}
use zfs_evacuation_controlle.Effect.{
  M, ret, throw, ask, try, local, require, ◌>>=◌, ◌>>◌, Call, get_backup, get_restore,
  create_backup, get_zfs_volume, other, RelayObs, IpNet, now_rfc3339, secs_since, now_secs,
  random_u16, observe_relay, spawn_relay, insert_relay,
}
use zfs_evacuation_controlle.Controller.Context.{
  Ctx, Action, requeue_secs, write_status, default_max_attempts, default_transfer_timeout,
}
use zfs_evacuation_controlle.Controller.Nodes.{node_by_id, node_ips}
use zfs_evacuation_controlle.Controller.Steps.{advance, wait, absent_or_there, adapt_to_target}
use zfs_evacuation_controlle.Controller.Transfer.Verdict.{
  TransferObs, TransferVerdict, transfer_verdict, complete, fail_attempt, stale_status, stale_relay,
  waiting_for_source, continue,
}
use zfs_evacuation_controlle.Controller.Transfer.Crs.{
  bkp_name, rst_name, drop_relay, cleanup_transfer_crs,
}
use zfs_evacuation_controlle.Relay.{host, parse_cidr}

-- The pod ranges of a node: `pod_cidrs`, and `pod_cidr` if it is not among them.
unfoldable pub pod_ranges : Node → List String
pod_ranges node = elim node.spec [
  | none ↦ []
  | some spec ↦
      (let many = unwrap_or [] spec.pod_cidrs in
        elim spec.pod_cidr [
          | none ↦ many
          | some c ↦ if contains c many then many else many ++ c ∷ []
        ])
]

unfoldable pub peer_list : Ctx → Node → List IpNet
peer_list ctx node =
    map host (node_ips ctx.libs node) ++ collect (parse_cidr ctx.libs.parse_ip) (pod_ranges node)

-- The addresses that the relay accepts from for a node.
unfoldable pub relay_peers : Ctx → Node → M (List IpNet)
relay_peers ctx node =
    if is_empty (peer_list ctx node)
    then throw (other ("no relay peer addresses found for node " <> node.metadata.name))
    else ret (peer_list ctx node)

-- `format!("zevac-a{attempt}-{:04x}", …)`
abbrev pub snap_name_of : ℕ → ℕ → String
snap_name_of attempt random = "zevac-a" <> show attempt <> "-" <> hex 4 random

-- The record of an attempt that has just begun.
abbrev pub new_transfer : ℕ → String → ℕ → ℕ → String → TransferStatus
new_transfer attempt snap_name backup_port restore_port now = record {
  attempt = attempt;
  snap_name = snap_name;
  ports = backup_port ∷ restore_port ∷ [];
  bytes_relayed = none;
  started_at = some now;
  failure_reason = none;
  target_snap_delete_issued = false;
}

unfoldable pub backup_cr : Ctx → String → ℕ → SourceInfo → String → ℕ → ZfsBackup
backup_cr ctx name attempt source snap_name backup_port = record {
  metadata = named (bkp_name name attempt);
  volume_name = source.volume_handle;
  owner_node_id = source.node_id;
  snap_name = some snap_name;
  prev_snap_name = none;
  backup_dest = ctx.cfg.pod_ip <> ":" <> show backup_port;
  status = some bkp_status_init;
}

-- From the spawn of the relay on: intent is written before the resource exists.
unfoldable pub launch :
    Ctx → String → EvacuationStatus → ℕ → SourceInfo → List IpNet → List IpNet → M Action
launch ctx name st attempt source src_peers dst_peers = do
  spawned ← local (spawn_relay src_peers dst_peers)
  ports ← require spawned "bind backup listener"
  local (insert_relay name attempt)
  random ← local random_u16
  now ← local now_rfc3339
  let snap_name = snap_name_of attempt random
  write_status name (record st {
    transfer = some (new_transfer attempt snap_name ports.0 ports.1 now);
    message = some ("transfer attempt " <> show attempt <> " starting");
  })
  created ← try (create_backup (backup_cr ctx name attempt source snap_name ports.0))
  absent_or_there created
  ret (requeue_secs 2)

-- Is a relay running for this attempt or a later one?
abbrev pub already_running : ℕ → Option RelayObs → Bool
already_running attempt none = false
already_running attempt (some m) = leb attempt m.attempt

unfoldable pub start_attempt : Ctx → Evacuation → EvacuationStatus → ℕ → M Action
start_attempt ctx evac st attempt = do
  let name = evac.metadata.name
  source ← require st.source "no source recorded"
  target ← require st.target "no target recorded"
  existing ← local (observe_relay name)
  if already_running attempt existing then ret (requeue_secs 5) else do
    src ← node_by_id source.node_id
    src_node ← require src ("source node " <> source.node_id <> " gone")
    dst ← node_by_id target.node_id
    dst_node ← require dst ("target node " <> target.node_id <> " gone")
    src_peers ← relay_peers ctx src_node
    dst_peers ← relay_peers ctx dst_node
    launch ctx name st attempt source src_peers dst_peers

unfoldable pub restore_cr : Ctx → String → ℕ → ℕ → ZfsVolume → TargetInfo → ZfsRestore
restore_cr ctx name attempt restore_port zv target =
    let spec : ZfsRestoreSpec = record {
      volume_name = target.new_volume_handle;
      owner_node_id = target.node_id;
      restore_src = ctx.cfg.pod_ip <> ":" <> show restore_port;
    } in
    let rst = new_restore (rst_name name attempt) spec (adapt_to_target zv.spec target) in
    record rst { status = some bkp_status_init }

unfoldable pub create_restore : Ctx → EvacuationStatus → String → ℕ → ℕ → M (Unit {0})
create_restore ctx st name attempt restore_port = do
  source ← require st.source "no source recorded"
  target ← require st.target "no target recorded"
  found ← ask (get_zfs_volume source.volume_handle)
  zv ← require found "source ZFSVolume disappeared"
  created ← try (Call.create_restore (restore_cr ctx name attempt restore_port zv target))
  absent_or_there created

-- The record keeps why the attempt failed, from the first judgement on.
abbrev pub with_failure : String → EvacuationStatus → EvacuationStatus
with_failure reason st = record st {
  transfer =
      map_option {A = TransferStatus} (λ x. record x { failure_reason = some reason }) st.transfer;
}

-- The last attempt has failed.
unfoldable pub give_up : String → EvacuationStatus → TransferStatus → String → M Action
give_up name st t reason = do
  write_status name (record st {
    phase = Phase.aborting;
    message =
        some ("transfer failed after " <> show t.attempt <> " attempts (last: " <> reason <> ")");
  })
  ret (requeue_secs 1)

unfoldable pub retry_or_fail :
    Ctx → Evacuation → EvacuationStatus → TransferStatus → ℕ → String → M Action
retry_or_fail ctx evac st0 t max_attempts reason = do
  let name = evac.metadata.name
  let st = with_failure reason st0
  drop_relay name
  gone ← cleanup_transfer_crs name t.attempt st
  if not gone
      then wait name st ("attempt " <> show t.attempt <> " failed (" <> reason <> "); cleaning up")
          10
      else if leb max_attempts t.attempt
      then give_up name st t reason
      else start_attempt ctx evac st ((t.attempt + 1) % 2 ^ 32)

-- `st.transfer.as_mut().unwrap().bytes_relayed = Some(bytes)`; the caller has matched `transfer`.
abbrev pub with_bytes : ℕ → EvacuationStatus → EvacuationStatus
with_bytes bytes st = record st {
  transfer =
      map_option {A = TransferStatus} (λ x. record x { bytes_relayed = some bytes }) st.transfer;
}

abbrev pub with_final_bytes : Option ℕ → EvacuationStatus → EvacuationStatus
with_final_bytes none st = st
with_final_bytes (some bytes) st = with_bytes bytes st

abbrev pub same_bytes : ℕ → Option ℕ → Bool
same_bytes bytes none = false
same_bytes bytes (some b) = b == bytes

-- A change of the count is written.
unfoldable pub report_progress : String → EvacuationStatus → ℕ → M Action
report_progress name st bytes = do write_status name (with_bytes bytes st); ret (requeue_secs 10)

-- `match transfer_verdict(&obs)`
unfoldable pub act_on :
    Ctx → Evacuation → EvacuationStatus → TransferStatus → ℕ → TransferVerdict → M Action
act_on ctx evac st t max_attempts (complete bytes) = do
  drop_relay evac.metadata.name
  advance evac.metadata.name (with_final_bytes bytes st) Phase.adopting
act_on ctx evac st t max_attempts (fail_attempt reason) =
    retry_or_fail ctx evac st t max_attempts reason
act_on ctx evac st t max_attempts stale_status = ret (requeue_secs 2)
act_on ctx evac st t max_attempts stale_relay = do
  drop_relay evac.metadata.name
  ret (requeue_secs 1)
act_on ctx evac st t max_attempts waiting_for_source =
    wait evac.metadata.name st ("transfer attempt " <> show t.attempt <> " waiting for source") 2
act_on ctx evac st t max_attempts TransferVerdict.create_restore = do
  create_restore ctx st evac.metadata.name t.attempt (unwrap_or 0 (get_elem? t.ports 1))
  ret (requeue_secs 2)
act_on ctx evac st t max_attempts (continue bytes) =
    if same_bytes bytes t.bytes_relayed
    then ret (requeue_secs 10)
    else report_progress evac.metadata.name st bytes

unfoldable pub elapsed_of : Option String → M ℕ
elapsed_of none = ret 0
elapsed_of (some started) = do secs ← local (secs_since started); ret (unwrap_or 0 secs)

unfoldable pub observe : Ctx → Evacuation → TransferStatus → M TransferObs
observe ctx evac t = do
  let name = evac.metadata.name
  bkp ← ask (get_backup (bkp_name name t.attempt))
  rst ← ask (get_restore (rst_name name t.attempt))
  mem ← local (observe_relay name)
  elapsed ← elapsed_of t.started_at
  now ← local now_secs
  ret (record {
    attempt = t.attempt;
    failure_reason = t.failure_reason;
    bkp_status = unwrap_or "" (and_then bkp (λ b. b.status));
    rst_status = unwrap_or "" (and_then rst (λ r. r.status));
    rst_exists = is_some rst;
    mem = mem;
    elapsed_secs = elapsed;
    now_secs = now;
    timeout_secs = unwrap_or default_transfer_timeout evac.spec.transfer_timeout_seconds;
    stall_secs = ctx.cfg.stall_seconds;
  })

unfoldable pub transferring : Ctx → Evacuation → EvacuationStatus → M Action
transferring ctx evac st = elim st.transfer [
  | none ↦ start_attempt ctx evac st 1
  | some t ↦ do
    obs ← observe ctx evac t
    act_on ctx evac st t (unwrap_or default_max_attempts evac.spec.max_attempts)
        (transfer_verdict obs)
]
