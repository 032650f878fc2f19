-- ===== src/Authority/Transfer.antt =====
-- src/controller/transfer.rs under the authority monitor.
use zfs_evacuation_controlle.Base.{
  ℕ, String, Bool, not, Option, none, some, List, ◌≡◌, refl, arith, is_empty, leb,
}
use zfs_evacuation_controlle.Kube.{Node}
use zfs_evacuation_controlle.Crd.Evacuation.{
  Evacuation, EvacuationStatus, Phase, SourceInfo, TransferStatus,
}
use zfs_evacuation_controlle.Effect.{Kind, delete, patch_finalizers, IpNet, ok, err}
use zfs_evacuation_controlle.Controller.Context.{Ctx, write_status}
use zfs_evacuation_controlle.Controller.Transfer.{
  bkp_name, rst_name, drop_relay, delete_or_strip, cleanup_backup, cleanup_restore,
  cleanup_transfer_crs, relay_peers, peer_list, launch, already_running, start_attempt,
  create_restore, with_failure, give_up, retry_or_fail, with_bytes, act_on, elapsed_of, observe,
  transferring, backup_cr, restore_cr, same_bytes, report_progress,
}
use zfs_evacuation_controlle.Controller.Transfer.Verdict.{
  TransferVerdict, transfer_verdict, complete, fail_attempt, stale_status, stale_relay,
  waiting_for_source, continue,
}
use zfs_evacuation_controlle.Authority.Diagram.{HasTarget, Follows}
use zfs_evacuation_controlle.Authority.Warrant.{Allowed}
use zfs_evacuation_controlle.Authority.Rules.{
  Safely, Stays, Stays-bind, if-Stays, lift-Stays, option-Stays, option-Safely, require-Stays,
  require-Safely, Stays-Safely, if-Safely,
}
use zfs_evacuation_controlle.Authority.Steps.{
  Any, advance-Safely, wait-Safely, node_by_id-Stays, strip_zfs_finalizer-Stays,
}

module _ (evac : Evacuation) (s : EvacuationStatus) where
  delete_or_strip-Stays :
      (kind : Kind) (name : String) (deleting : Bool) (node_id : Option String)
      → Allowed evac s (delete kind name)
      → ((fins : List String) → Allowed evac s (patch_finalizers kind name fins))
      → Stays evac s Any (delete_or_strip kind name deleting node_id)
  unfolding delete_or_strip
  delete_or_strip-Stays kind name deleting node_id may free =
      if-Stays evac s Any deleting _ _
        (option-Stays evac s Any node_id _ _ (λ _. tt)
          (λ nid _. strip_zfs_finalizer-Stays evac s kind name nid free))
        (refl, may, λ r. ground arith)

  cleanup_backup-Stays :
      (b : String) (node_id : Option String)
      → Allowed evac s (delete Kind.zfs_backup b)
      → Stays evac s Any (cleanup_backup b node_id)
  unfolding cleanup_backup
  cleanup_backup-Stays b node_id may = (
    refl,
    tt,
    λ r. lift-Stays evac s Any r _ elim [
      | none ↦ tt
      | some c ↦
          Stays-bind evac Any Any s _ _
            (delete_or_strip-Stays Kind.zfs_backup b c.metadata.deleting node_id may (λ f. tt))
            (λ _ _. tt)
    ],
  )

  cleanup_restore-Stays :
      (r : String) (node_id : Option String)
      → Allowed evac s (delete Kind.zfs_restore r)
      → Stays evac s Any (cleanup_restore r node_id)
  unfolding cleanup_restore
  cleanup_restore-Stays r node_id may = (
    refl,
    tt,
    λ q. lift-Stays evac s Any q _ elim [
      | none ↦ tt
      | some c ↦
          Stays-bind evac Any Any s _ _
            (delete_or_strip-Stays Kind.zfs_restore r c.metadata.deleting node_id may (λ f. tt))
            (λ _ _. tt)
    ],
  )

  -- The deletions name the resources of the recorded attempt.
  pub cleanup_transfer_crs-Stays :
      (t : TransferStatus) (st : EvacuationStatus)
      → s.transfer ≡ some t
      → Stays evac s Any (cleanup_transfer_crs evac.metadata.name t.attempt st)
  unfolding cleanup_transfer_crs
  cleanup_transfer_crs-Stays t st e =
      Stays-bind evac Any Any s _ _ (cleanup_backup-Stays _ _ (rw e refl))
        λ _ _. Stays-bind evac Any Any s _ _ (cleanup_restore-Stays _ _ (rw e refl)) (λ _ _. tt)

  pub drop_relay-Stays : Stays evac s Any (drop_relay evac.metadata.name)
  unfolding drop_relay
  drop_relay-Stays = λ r. tt

  relay_peers-Stays : (ctx : Ctx) (node : Node) → Stays evac s Any (relay_peers ctx node)
  unfolding relay_peers
  relay_peers-Stays ctx node = if-Stays evac s Any (is_empty (peer_list ctx node)) _ _ tt tt

  -- The new attempt is on record before its backup exists.
  module _ (ctx : Ctx) (st : EvacuationStatus) (at : st.phase ≡ Phase.transferring)
      (writes : (t : TransferStatus) (msg : String)
        → Follows s (record st { transfer = some t; message = some msg })) where
    launch-Safely :
        (attempt : ℕ) (source : SourceInfo) (src dst : List IpNet)
        → Safely evac s (launch ctx evac.metadata.name st attempt source src dst)
    unfolding launch write_status bkp_name backup_cr
    launch-Safely attempt source src dst = λ spawned.
        require-Safely evac s spawned _ _ λ ports _ _ random now.
          ((refl, writes _ _), elim [ ok _ ↦ ((at, refl), λ r. ground arith) | err e ↦ tt ])

    start_attempt-Safely : (attempt : ℕ) → Safely evac s (start_attempt ctx evac st attempt)
    unfolding start_attempt
    start_attempt-Safely attempt = require-Safely evac s st.source _ _ λ source _.
        require-Safely evac s st.target _ _ λ target _ existing.
          if-Safely evac s (already_running attempt existing) _ _ (λ _. tt)
            λ _. Stays-Safely evac s Any _ _ (node_by_id-Stays evac s source.node_id) λ src _.
              require-Safely evac s src _ _ λ src_node _.
                Stays-Safely evac s Any _ _ (node_by_id-Stays evac s target.node_id) λ dst _.
                  require-Safely evac s dst _ _ λ dst_node _.
                    Stays-Safely evac s Any _ _ (relay_peers-Stays ctx src_node) λ src_peers _.
                      Stays-Safely evac s Any _ _ (relay_peers-Stays ctx dst_node)
                        λ dst_peers _. launch-Safely attempt source src_peers dst_peers

  module _ (ctx : Ctx) (at : s.phase ≡ Phase.transferring) (sound : HasTarget s) where
    create_restore-Stays :
        (t : TransferStatus) (port : ℕ)
        → s.transfer ≡ some t
        → Stays evac s Any (create_restore ctx s evac.metadata.name t.attempt port)
    unfolding create_restore restore_cr rst_name
    create_restore-Stays t port e = require-Stays evac s Any s.source _ _ λ source _.
        require-Stays evac s Any s.target _ _ λ target _. (
          refl,
          tt,
          λ r. lift-Stays evac s Any r _ λ found.
              require-Stays evac s Any found _ _ λ zv _. (refl, (at, rw e refl), λ q. ground arith),
        )

    give_up-Safely :
        (t : TransferStatus) (reason : String)
        → Safely evac s (give_up evac.metadata.name (with_failure reason s) t reason)
    unfolding give_up write_status
    give_up-Safely t reason = ground arith

    retry_or_fail-Safely :
        (t : TransferStatus) (max_attempts : ℕ) (reason : String)
        → s.transfer ≡ some t
        → Safely evac s (retry_or_fail ctx evac s t max_attempts reason)
    unfolding retry_or_fail
    retry_or_fail-Safely t max_attempts reason e =
        Stays-Safely evac s Any _ _ drop_relay-Stays λ _ _.
          Stays-Safely evac s Any _ _ (cleanup_transfer_crs-Stays t (with_failure reason s) e)
            λ gone _.
              if-Safely evac s (not gone) _ _
                (λ _. wait-Safely evac s (with_failure reason s) _ 10 (ground arith))
                (λ _.
                  if-Safely evac s (leb max_attempts t.attempt) _ _ (λ _. give_up-Safely t reason)
                    (λ _.
                      start_attempt-Safely ctx (with_failure reason s) at (λ t' msg. ground arith)
                        _))

    report_progress-Safely :
        (bytes : ℕ) (t : TransferStatus)
        → s.transfer ≡ some t
        → Safely evac s (report_progress evac.metadata.name s bytes)
    unfolding report_progress write_status
    report_progress-Safely bytes t e = ground arith

    act_on-Safely :
        (t : TransferStatus) (max_attempts : ℕ) (v : TransferVerdict)
        → s.transfer ≡ some t
        → Safely evac s (act_on ctx evac s t max_attempts v)
    unfolding act_on
    act_on-Safely t max_attempts (complete none) e =
        Stays-Safely evac s Any _ _ drop_relay-Stays
          λ _ _. advance-Safely evac s s Phase.adopting (ground arith)
    act_on-Safely t max_attempts (complete (some bytes)) e =
        Stays-Safely evac s Any _ _ drop_relay-Stays
          λ _ _. advance-Safely evac s (with_bytes bytes s) Phase.adopting (ground arith)
    act_on-Safely t max_attempts (fail_attempt reason) e =
        retry_or_fail-Safely t max_attempts reason e
    act_on-Safely t max_attempts stale_status e = tt
    act_on-Safely t max_attempts stale_relay e =
        Stays-Safely evac s Any _ _ drop_relay-Stays (λ _ _. tt)
    act_on-Safely t max_attempts waiting_for_source e = wait-Safely evac s s _ 2 (ground arith)
    act_on-Safely t max_attempts TransferVerdict.create_restore e =
        Stays-Safely evac s Any _ _ (create_restore-Stays t _ e) (λ _ _. tt)
    act_on-Safely t max_attempts (continue bytes) e =
        if-Safely evac s (same_bytes bytes t.bytes_relayed) _ _ (λ _. tt)
          (λ _. report_progress-Safely bytes t e)

    elapsed_of-Stays : (started : Option String) → Stays evac s Any (elapsed_of started)
    unfolding elapsed_of
    elapsed_of-Stays none = tt
    elapsed_of-Stays (some started) = λ r. tt

    observe-Stays : (t : TransferStatus) → Stays evac s Any (observe ctx evac t)
    unfolding observe
    observe-Stays t = (
      refl,
      tt,
      λ b. lift-Stays evac s Any b _ λ bkp. (
        refl,
        tt,
        λ r. lift-Stays evac s Any r _ λ rst mem.
            Stays-bind evac Any Any s _ _ (elapsed_of-Stays t.started_at) λ elapsed _ now. tt,
      ),
    )

    pub transferring-Safely : Safely evac s (transferring ctx evac s)
    unfolding transferring
    transferring-Safely =
        option-Safely evac s s.transfer _ _
          (λ _. start_attempt-Safely ctx s at (λ t msg. ground arith) 1)
          λ t e.
            Stays-Safely evac s Any _ _ (observe-Stays t)
              λ obs _. act_on-Safely t _ (transfer_verdict obs) e
