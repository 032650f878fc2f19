-- ===== src/Behaviour/Succession.antt =====
-- src/controller/transfer.rs, `transferring`: how one attempt gives way to the next, or to the end.
pub mod Writes
use zfs_evacuation_controlle.Base.{
  ℕ, ◌+◌, ◌%◌, ◌^◌, ◌≤◌, ◌<◌, String, Bool, true, false, ◌&&◌, Option, none, some, ◌≡◌, refl, arith,
  eqs, unwrap_or, ◌∙◌, if◌then◌else◌, ◌<>◌,
}
use zfs_evacuation_controlle.Kube.{Node}
use zfs_evacuation_controlle.Crd.Openebs.{ZfsBackup, ZfsRestore, bkp_status_done}
use zfs_evacuation_controlle.Crd.Evacuation.{Evacuation, EvacuationStatus, TransferStatus, Phase}
use zfs_evacuation_controlle.Effect.{
  M, ◌>>=◌, Call, Value, Answer, ok, err, Kind, get_backup, get_restore, patch_status, Monitor,
  Safe, Safe-bind, Safe-unnoted, IsUnnoted, IsUnnoted-bind, Outcome, done,
}
use zfs_evacuation_controlle.Controller.Context.{Ctx}
use zfs_evacuation_controlle.Controller.Nodes.{node_by_id}
use zfs_evacuation_controlle.Controller.Steps.{set_finalizers, strip_zfs_finalizer_if_node_gone}
use zfs_evacuation_controlle.Controller.Transfer.{
  bkp_name, rst_name, delete_or_strip, cleanup_backup, cleanup_restore, cleanup_transfer_crs,
  relay_peers, transferring,
}

-- What the last read of one of the attempt's resources has shown.
pub data Finding : Type 0 where
  unread absent present finished : Finding

pub record Seen : Type 0 where
  pub backup : Finding
  pub restore : Finding

abbrev pub unseen : Seen
unseen = record { backup = unread; restore = unread }

abbrev of_status : Option String → Finding
of_status st = if eqs (unwrap_or "" st) bkp_status_done then finished else present

abbrev pub of_backup : Option ZfsBackup → Finding
of_backup none = absent
of_backup (some b) = of_status b.status

abbrev pub of_restore : Option ZfsRestore → Finding
of_restore none = absent
of_restore (some r) = of_status r.status

-- The writes of the status that the recorded attempt `t` may lead to.
pub data MayWrite (t : TransferStatus) (max_attempts : ℕ) (s : Seen) (st : EvacuationStatus)
    : Type 0 where
  completes :
      st.phase ≡ Phase.adopting
      → s.backup ≡ finished
      → s.restore ≡ finished
      → MayWrite t max_attempts s st
  gives_up :
      st.phase ≡ Phase.aborting
      → s.backup ≡ absent
      → s.restore ≡ absent
      → max_attempts ≤ t.attempt
      → MayWrite t max_attempts s st
  retries :
      (next : TransferStatus)
      → st.phase ≡ Phase.transferring
      → st.transfer ≡ some next
      → next.attempt ≡ (t.attempt + 1) % 2 ^ 32
      → s.backup ≡ absent
      → s.restore ≡ absent
      → t.attempt < max_attempts
      → MayWrite t max_attempts s st
  goes_on :
      (same : TransferStatus)
      → st.phase ≡ Phase.transferring
      → st.transfer ≡ some same
      → same.attempt ≡ t.attempt
      → MayWrite t max_attempts s st

module _ (evac : Evacuation) (t : TransferStatus) (max_attempts : ℕ) where
  abbrev pub seen_after : Seen → (c : Call) → Answer (Value c) → Seen
  seen_after s (get_backup n) (ok b) = record s { backup = of_backup b }
  seen_after s (get_restore n) (ok r) = record s { restore = of_restore r }
  seen_after s c r = s

  -- Only the attempt's own resources are read.
  abbrev pub Permitted : Seen → Call → Type 0
  Permitted s (get_backup n) = n ≡ bkp_name evac.metadata.name t.attempt
  Permitted s (get_restore n) = n ≡ rst_name evac.metadata.name t.attempt
  Permitted s (patch_status n st) = MayWrite t max_attempts s st
  Permitted s _ = Unit

  abbrev pub attempt_watch : Monitor
  attempt_watch = record { State = Seen; Allowed = Permitted; next = seen_after }

  abbrev pub Anyway : {A : Type 0} → Seen → Outcome A → Type 0
  Anyway s o = Unit

  abbrev pub Quiet : {A : Type 0} → Seen → M A → Type 0
  Quiet s tree = IsUnnoted attempt_watch s tree

  abbrev pub Watched : {A : Type 0} → Seen → M A → Type 0
  Watched s tree = Safe attempt_watch Anyway s tree

  module _ (s : Seen) where
    pub node_by_id-Quiet : (id : String) → Quiet s (node_by_id id)
    unfolding node_by_id
    node_by_id-Quiet id = ground arith

    strip-Quiet :
        (kind : Kind) (name id : String) → Quiet s (strip_zfs_finalizer_if_node_gone kind name id)
    unfolding strip_zfs_finalizer_if_node_gone set_finalizers
    strip-Quiet kind name id =
        IsUnnoted-bind attempt_watch s _ _ (node_by_id-Quiet id) (λ node. ground arith)

    delete_or_strip-Quiet :
        (kind : Kind) (name : String) (deleting : Bool) (id : Option String)
        → Quiet s (delete_or_strip kind name deleting id)
    unfolding delete_or_strip
    delete_or_strip-Quiet kind name true none = tt
    delete_or_strip-Quiet kind name true (some id) = strip-Quiet kind name id
    delete_or_strip-Quiet kind name false id = ground arith

    pub relay_peers-Quiet : (ctx : Ctx) (node : Node) → Quiet s (relay_peers ctx node)
    unfolding relay_peers
    relay_peers-Quiet ctx node = ground arith

  -- A cleanup that tells the resource is gone has just read it as absent.
  abbrev BackupGone : Seen → Outcome Bool → Type 0
  BackupGone s (done true) = s.backup ≡ absent
  BackupGone s _ = Unit

  abbrev RestoreGone : Seen → Seen → Outcome Bool → Type 0
  RestoreGone before s (done true) = (s.restore ≡ absent) × (s.backup ≡ before.backup)
  RestoreGone before s _ = Unit

  abbrev pub BothGone : Seen → Outcome Bool → Type 0
  BothGone s (done true) = (s.backup ≡ absent) × (s.restore ≡ absent)
  BothGone s _ = Unit

  cleanup_backup-Safe :
      (s : Seen) (id : Option String)
      → Safe attempt_watch BackupGone s (cleanup_backup (bkp_name evac.metadata.name t.attempt) id)
  unfolding cleanup_backup
  cleanup_backup-Safe s id = (
    refl,
    elim [
      | ok none ↦ refl
      | ok (some c) ↦
          (let there = record s { backup = of_backup (some c) } in
            Safe-unnoted attempt_watch there BackupGone _ _
              (delete_or_strip-Quiet there Kind.zfs_backup _ c.metadata.deleting id) (λ _. tt)
              (λ _. tt))
      | err e ↦ tt
    ],
  )

  cleanup_restore-Safe :
      (s : Seen) (id : Option String)
      → Safe attempt_watch
          (RestoreGone s)
          s
          (cleanup_restore (rst_name evac.metadata.name t.attempt) id)
  unfolding cleanup_restore
  cleanup_restore-Safe s id = (
    refl,
    elim [
      | ok none ↦ (refl, refl)
      | ok (some c) ↦
          (let there = record s { restore = of_restore (some c) } in
            Safe-unnoted attempt_watch there (RestoreGone s) _ _
              (delete_or_strip-Quiet there Kind.zfs_restore _ c.metadata.deleting id) (λ _. tt)
              (λ _. tt))
      | err e ↦ tt
    ],
  )

  both_gone :
      (before s : Seen) (b r : Bool)
      → BackupGone before (done b)
      → RestoreGone before s (done r)
      → BothGone s (done (b && r))
  both_gone before s true true h g = (g.1 ∙ h, g.0)
  both_gone before s true false h g = tt
  both_gone before s false r h g = tt

  pub cleanup-Safe :
      (s : Seen) (st : EvacuationStatus)
      → Safe attempt_watch BothGone s (cleanup_transfer_crs evac.metadata.name t.attempt st)
  unfolding cleanup_transfer_crs
  cleanup-Safe s st =
      Safe-bind attempt_watch BackupGone BothGone s _ _ (cleanup_backup-Safe s _)
        (λ s' b h.
          Safe-bind attempt_watch (RestoreGone s') BothGone s' _ _ (cleanup_restore-Safe s' _)
            (λ s'' r g. both_gone s' s'' b r h g) (λ _ _ _. tt))
        (λ _ _ _. tt)

  pub after :
      {A B : Type 0} (s : Seen) (tree : M A) (f : A → M B)
      → Quiet s tree
      → ((a : A) → Watched s (f a))
      → Watched s (tree >>= f)
  after s tree f h go = Safe-unnoted attempt_watch s Anyway tree f h go (λ _. tt)
