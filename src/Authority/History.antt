-- ===== src/Authority/History.antt =====
-- Histories of src/controller/state_machine.rs: reconciliations of one object, in any number, each
-- from the status that is recorded, and each possibly cut off after any of its calls.
use zfs_evacuation_controlle.Base.{ℕ, true, ◌≡◌, ◌≤◌, refl, arith, ◌∙◌, ◌⊎◌, inl, inr}
use zfs_evacuation_controlle.Crd.Evacuation.{Evacuation, EvacuationStatus, Phase, default_status}
use zfs_evacuation_controlle.Effect.{
  M, ret, throw, call, sense, Call, Value, Answer, ok, err, Sense, Reply, patch_status,
}
use zfs_evacuation_controlle.Controller.Context.{Ctx}
use zfs_evacuation_controlle.Controller.StateMachine.{reconcile}
use zfs_evacuation_controlle.Authority.Diagram.{IsSound, Needs, Follows, may_follow}
use zfs_evacuation_controlle.Authority.Warrant.{Allowed, recorded_after}
use zfs_evacuation_controlle.Authority.Rules.{Safely}
use zfs_evacuation_controlle.Authority.Reconcile.{reconcile-Safely, status_of}

-- From the recorded status `s`, the tree comes to make the call `c` with `s'` recorded.
pub data Makes {A : Type 0} : EvacuationStatus → M A → EvacuationStatus → Call → Type 0 where
  here : {s : EvacuationStatus} {c : Call} {k : Answer (Value c) → M A} → Makes s (call c k) s c
  answered :
      {s s' : EvacuationStatus} {c d : Call} {k : Answer (Value c) → M A} (r : Answer (Value c))
      → Makes (recorded_after s c r) (k r) s' d
      → Makes s (call c k) s' d
  sensed :
      {s s' : EvacuationStatus} {d : Call} {q : Sense} {k : Reply q → M A} (r : Reply q)
      → Makes s (k r) s' d
      → Makes s (sense q k) s' d

-- It ends, or is cut off, with `s'` recorded.
pub data Leaves {A : Type 0} : EvacuationStatus → M A → EvacuationStatus → Type 0 where
  stopped : {s : EvacuationStatus} {t : M A} → Leaves s t s
  answered :
      {s s' : EvacuationStatus} {c : Call} {k : Answer (Value c) → M A} (r : Answer (Value c))
      → Leaves (recorded_after s c r) (k r) s'
      → Leaves s (call c k) s'
  sensed :
      {s s' : EvacuationStatus} {q : Sense} {k : Reply q → M A} (r : Reply q)
      → Leaves s (k r) s'
      → Leaves s (sense q k) s'

-- The statuses that an object can come to have.
pub data Reached : EvacuationStatus → Type 0 where
  created : Reached default_status
  reconciled :
      {s : EvacuationStatus} (ctx : Ctx) (evac : Evacuation)
      → Reached (status_of evac)
      → Leaves (status_of evac) (reconcile ctx evac) s
      → Reached s

-- The place of a phase in the diagram.
abbrev pub rank : Phase → ℕ
rank Phase.pending = 0
rank Phase.guarding = 1
rank Phase.retaining = 2
rank Phase.locking = 3
rank Phase.quiescing = 4
rank Phase.target_selecting = 5
rank Phase.transferring = 6
rank Phase.adopting = 7
rank Phase.committing = 8
rank Phase.swapping = 9
rank Phase.cleaning_up = 10
rank Phase.completed = 11
rank Phase.aborting = 12
rank Phase.failed = 13

-- What is recorded of the swap stays as it was.
pub record IsFrozen (s t : EvacuationStatus) : Type 0 where
  pub committed : t.committed ≡ true
  pub source : t.source ≡ s.source
  pub pvc_ref : t.pvc_ref ≡ s.pvc_ref
  pub target : t.target ≡ s.target
  pub policy : t.original_reclaim_policy ≡ s.original_reclaim_policy

pub record Onward (s t : EvacuationStatus) : Type 0 where
  pub sound : IsSound t
  pub ranked : rank s.phase ≤ rank t.phase
  pub frozen : s.committed ≡ true → IsFrozen s t

-- The entries of the phase diagram, one by one.
rank_lem : (p q : Phase) → may_follow p q ≡ true → rank p ≤ rank q
rank_lem p q h = ground arith

committed_late :
    (s : EvacuationStatus) (p : Phase)
    → Needs p s
    → s.committed ≡ true
    → ((p ≡ Phase.pending) → ⊥) × ((p ≡ Phase.target_selecting) → ⊥)
committed_late s p sound c = ground arith

other : {P Q : Type 0} → (P → ⊥) → P ⊎ Q → Q
other refuted (inl p) = elim (refuted p) [ ]
other refuted (inr q) = q

Follows-Onward : (s t : EvacuationStatus) → IsSound s → Follows s t → Onward s t
Follows-Onward s t sound h = record {
  sound = h.sound;
  ranked = rank_lem s.phase t.phase h.edge;
  frozen = λ c.
      let late = committed_late s s.phase sound c in
      record {
        committed = h.commits c;
        source = other late.0 h.source_kept;
        pvc_ref = other late.0 h.pvc_ref_kept;
        target = other late.1 h.target_kept;
        policy = other late.0 h.policy_kept;
      };
}

Onward-refl : (s : EvacuationStatus) → IsSound s → Onward s s
Onward-refl s sound = record {
  sound = sound;
  ranked = omega arith;
  frozen =
      λ c. record { committed = c; source = refl; pvc_ref = refl; target = refl; policy = refl };
}

Onward-trans : (s t u : EvacuationStatus) → Onward s t → Onward t u → Onward s u
Onward-trans s t u h g = record {
  sound = g.sound;
  ranked = let a = h.ranked in let b = g.ranked in omega arith;
  frozen = λ c.
      let x = h.frozen c in
      let y = g.frozen x.committed in
      record {
        committed = y.committed;
        source = y.source ∙ x.source;
        pvc_ref = y.pvc_ref ∙ x.pvc_ref;
        target = y.target ∙ x.target;
        policy = y.policy ∙ x.policy;
      };
}

module _ (evac : Evacuation) where
  -- The answer to an allowed call leaves the recorded status sound and onward.
  call-Onward :
      (s : EvacuationStatus) (c : Call) (r : Answer (Value c))
      → IsSound s
      → Allowed evac s c
      → Onward s (recorded_after s c r)
  call-Onward s (patch_status name t) (ok _) sound h = Follows-Onward s t sound h.1
  call-Onward s (patch_status name t) (err e) sound h = Onward-refl s sound
  call-Onward s _ r sound h = Onward-refl s sound

  pub Leaves-Onward :
      {A : Type 0} (s s' : EvacuationStatus) (t : M A)
      → IsSound s
      → Safely evac s t
      → Leaves s t s'
      → Onward s s'
  Leaves-Onward s s' t sound h stopped = Onward-refl s sound
  Leaves-Onward s s' (call c k) sound h (answered r next) =
      let now = call-Onward s c r sound h.0 in
      Onward-trans s (recorded_after s c r) s' now
        (Leaves-Onward (recorded_after s c r) s' (k r) now.sound (h.1 r) next)
  Leaves-Onward s s' (sense q k) sound h (sensed r next) = Leaves-Onward s s' (k r) sound (h r) next

  pub Makes-Allowed :
      {A : Type 0} (s s' : EvacuationStatus) (t : M A) (c : Call)
      → IsSound s
      → Safely evac s t
      → Makes s t s' c
      → Onward s s' × Allowed evac s' c
  Makes-Allowed s s' (ret a) d sound h run = elim run [ ]
  Makes-Allowed s s' (throw e) d sound h run = elim run [ ]
  Makes-Allowed s s' (call c k) d sound h here = (Onward-refl s sound, h.0)
  Makes-Allowed s s' (call c k) d sound h (answered r next) =
      let now = call-Onward s c r sound h.0 in
      let rest = Makes-Allowed (recorded_after s c r) s' (k r) d now.sound (h.1 r) next in
      (Onward-trans s (recorded_after s c r) s' now rest.0, rest.1)
  Makes-Allowed s s' (sense q k) d sound h (sensed r next) =
      Makes-Allowed s s' (k r) d sound (h r) next

-- Every status that an object can come to have holds the data that its phase needs: nothing is
-- committed before Swapping, source and claim are recorded from Guarding on, the target from
-- Transferring on, the transfer from Adopting on, and the whole of the swap from Swapping on.
pub Reached-IsSound : (s : EvacuationStatus) → Reached s → IsSound s
Reached-IsSound s created = refl
Reached-IsSound s (reconciled ctx evac before run) =
    let sound = Reached-IsSound (status_of evac) before in
    (Leaves-Onward evac (status_of evac) s (reconcile ctx evac) sound
      (reconcile-Safely ctx evac sound) run).sound
