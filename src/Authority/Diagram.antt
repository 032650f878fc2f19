-- ===== src/Authority/Diagram.antt =====
-- The phase diagram of README.md, "State machine", and what the status holds in each phase.
use zfs_evacuation_controlle.Base.{Bool, true, false, ◌≡◌, ◌⊎◌, is_some}
use zfs_evacuation_controlle.Crd.Evacuation.{EvacuationStatus, Phase}

-- The chain, the ways to Aborting and Failed before the commit point, and rewrites in a phase.
abbrev pub may_follow : Phase → Phase → Bool
may_follow Phase.pending Phase.guarding = true
may_follow Phase.pending Phase.failed = true
may_follow Phase.guarding Phase.retaining = true
may_follow Phase.retaining Phase.locking = true
may_follow Phase.locking Phase.quiescing = true
may_follow Phase.quiescing Phase.quiescing = true
may_follow Phase.quiescing Phase.target_selecting = true
may_follow Phase.target_selecting Phase.target_selecting = true
may_follow Phase.target_selecting Phase.transferring = true
may_follow Phase.target_selecting Phase.failed = true
may_follow Phase.transferring Phase.transferring = true
may_follow Phase.transferring Phase.adopting = true
may_follow Phase.adopting Phase.adopting = true
may_follow Phase.adopting Phase.committing = true
may_follow Phase.committing Phase.committing = true
may_follow Phase.committing Phase.swapping = true
may_follow Phase.committing Phase.failed = true
may_follow Phase.swapping Phase.swapping = true
may_follow Phase.swapping Phase.cleaning_up = true
may_follow Phase.swapping _ = false
may_follow Phase.cleaning_up Phase.cleaning_up = true
may_follow Phase.cleaning_up Phase.completed = true
may_follow Phase.cleaning_up _ = false
may_follow Phase.completed _ = false
may_follow Phase.failed _ = false
may_follow Phase.aborting Phase.failed = true
may_follow _ Phase.aborting = true
may_follow _ _ = false

-- Before the target is chosen: what Pending has recorded.
pub record HasSource (s : EvacuationStatus) : Type 0 where
  pub uncommitted : s.committed ≡ false
  pub source : is_some s.source ≡ true
  pub pvc_ref : is_some s.pvc_ref ≡ true

pub record HasTarget (s : EvacuationStatus) : Type 0 where
  pub uncommitted : s.committed ≡ false
  pub source : is_some s.source ≡ true
  pub pvc_ref : is_some s.pvc_ref ≡ true
  pub target : is_some s.target ≡ true

pub record HasTransfer (s : EvacuationStatus) : Type 0 where
  pub uncommitted : s.committed ≡ false
  pub source : is_some s.source ≡ true
  pub pvc_ref : is_some s.pvc_ref ≡ true
  pub target : is_some s.target ≡ true
  pub transfer : is_some s.transfer ≡ true

-- Past the commit point: all that the roll-forward reads is recorded.
pub record IsCommitted (s : EvacuationStatus) : Type 0 where
  pub committed : s.committed ≡ true
  pub source : is_some s.source ≡ true
  pub pvc_ref : is_some s.pvc_ref ≡ true
  pub target : is_some s.target ≡ true
  pub transfer : is_some s.transfer ≡ true
  pub old_pv_manifest : is_some s.old_pv_manifest ≡ true
  pub new_pv_manifest : is_some s.new_pv_manifest ≡ true

abbrev pub Needs : Phase → EvacuationStatus → Type 0
Needs Phase.pending s = s.committed ≡ false
Needs Phase.guarding s = HasSource s
Needs Phase.retaining s = HasSource s
Needs Phase.locking s = HasSource s
Needs Phase.quiescing s = HasSource s
Needs Phase.target_selecting s = HasSource s
Needs Phase.transferring s = HasTarget s
Needs Phase.adopting s = HasTransfer s
Needs Phase.committing s = HasTransfer s
Needs Phase.swapping s = IsCommitted s
Needs Phase.cleaning_up s = IsCommitted s
Needs Phase.completed s = IsCommitted s
Needs Phase.aborting s = s.committed ≡ false
Needs Phase.failed s = s.committed ≡ false

abbrev pub IsSound : EvacuationStatus → Type 0
IsSound s = Needs s.phase s

-- What one write of the status may change, from `s` to `t`.
pub record Follows (s t : EvacuationStatus) : Type 0 where
  pub edge : may_follow s.phase t.phase ≡ true
  pub sound : IsSound t
  pub commits : s.committed ≡ true → t.committed ≡ true
  pub source_kept : (s.phase ≡ Phase.pending) ⊎ (t.source ≡ s.source)
  pub pvc_ref_kept : (s.phase ≡ Phase.pending) ⊎ (t.pvc_ref ≡ s.pvc_ref)
  pub policy_kept :
      (s.phase ≡ Phase.pending) ⊎ (t.original_reclaim_policy ≡ s.original_reclaim_policy)
  pub target_kept : (s.phase ≡ Phase.target_selecting) ⊎ (t.target ≡ s.target)
