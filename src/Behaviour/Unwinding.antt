-- ===== src/Behaviour/Unwinding.antt =====
-- src/controller/abort.rs, `run`: what has to be undone before an abort ends, as a watch on the calls.
pub mod Parts
pub mod Performed
pub mod Target
pub mod Sequence
pub mod Run
pub mod Unlocking
pub mod Gone
use zfs_evacuation_controlle.Base.{
  String, Bool, true, false, not, ◌&&◌, ◌||◌, Option, none, some, [], ◌≡◌, arith, eqs, contains,
  is_some, is_some_and, and_then, lookup, unwrap_or, ◌<>◌, if◌then◌else◌,
}
use zfs_evacuation_controlle.Crd.Params.{ParamsSpec}
use zfs_evacuation_controlle.Crd.Evacuation.{
  Evacuation, EvacuationStatus, PvcRef, SourceInfo, TargetInfo, TransferStatus, guard_finalizer,
  evacuate_annotation,
}
use zfs_evacuation_controlle.Effect.{
  Returns, M, ret, throw, call, sense, lift, require, ◌>>=◌, Call, Value, Answer, ok, err, Kind,
  get_pv, get_zfs_volume, get_backup, get_restore, get_snapshot, patch_evacuate_annotation_null,
  get_params, create_params, replace_params, get_meta, patch_finalizers, patch_reclaim_policy,
  patch_status, Monitor, Safe, Outcome, done, raised,
}
use zfs_evacuation_controlle.Controller.PvSwap.{has_uid}
use zfs_evacuation_controlle.Controller.StateMachine.{is_terminal}
use zfs_evacuation_controlle.Controller.Transfer.{bkp_name, rst_name}

-- What is to be undone, with the record that calls for it.
pub data Duty : Type 0 where
  volume_gone : TargetInfo → TransferStatus → Duty
  backup_gone restore_gone : TargetInfo → TransferStatus → Duty
  policy_back : SourceInfo → String → Duty
  unlocked : PvcRef → Duty
  unguarded source_gone : SourceInfo → Duty
  snapshot_gone : TargetInfo → TransferStatus → Duty
  trigger_off : Duty

-- What an abort owes.
abbrev pub IsDue : EvacuationStatus → Duty → Type 0
IsDue st (volume_gone target t) = (st.target ≡ some target) × (st.transfer ≡ some t)
IsDue st (backup_gone target t) = (st.target ≡ some target) × (st.transfer ≡ some t)
IsDue st (restore_gone target t) = (st.target ≡ some target) × (st.transfer ≡ some t)
IsDue st (policy_back source orig) =
    (st.source ≡ some source) × (st.original_reclaim_policy ≡ some orig)
IsDue st (unlocked r) = st.pvc_ref ≡ some r
IsDue st (unguarded source) = st.source ≡ some source
IsDue st d = ⊥

-- The claim is in no lock list.
abbrev pub is_unlocked : PvcRef → ParamsSpec → Bool
is_unlocked r p =
    let key = r.namespace <> "/" <> r.name in
    not (contains key p.pvc_keys) && not (contains key p.claimable_pvc_keys)

-- The end of an evacuation: a terminal phase is recorded, or the object is let go.
abbrev pub is_end : Call → Bool
is_end (patch_status name st) = is_terminal st.phase
is_end (patch_finalizers Kind.evacuation name fins) = true
is_end _ = false

-- A tree that does not end it.
abbrev pub IsMiddle : {A : Type 0} → M A → Type 0
IsMiddle (ret a) = Unit
IsMiddle (throw e) = Unit
IsMiddle (call c k) = (is_end c ≡ false) × ((r : Answer (Value c)) → IsMiddle (k r))
IsMiddle (sense q k) = (r : _) → IsMiddle (k r)

pub IsMiddle-bind :
    {A B : Type 0} (tree : M A) (f : A → M B)
    → IsMiddle tree
    → ((a : A) → IsMiddle (f a))
    → IsMiddle (tree >>= f)
IsMiddle-bind (ret a) f h go = go a
IsMiddle-bind (throw e) f h go = tt
IsMiddle-bind (call c k) f h go = (h.0, λ r. IsMiddle-bind (k r) f (h.1 r) go)
IsMiddle-bind (sense q k) f h go = λ r. IsMiddle-bind (k r) f (h r) go

pub IsMiddle-require :
    {A B : Type 0} (o : Option A) (msg : String) (f : A → M B)
    → ((a : A) → IsMiddle (f a))
    → IsMiddle (require o msg >>= f)
IsMiddle-require none msg f h = tt
IsMiddle-require (some a) msg f h = h a

pub IsMiddle-lift :
    {A B : Type 0} (r : Answer A) (f : A → M B)
    → ((a : A) → IsMiddle (f a))
    → IsMiddle (lift r >>= f)
IsMiddle-lift (ok a) f h = h a
IsMiddle-lift (err e) f h = tt

pub IsMiddle-if :
    {A : Type 0} (b : Bool) (t u : M A) → IsMiddle t → IsMiddle u → IsMiddle (if b then t else u)
IsMiddle-if true t u ht hu = ht
IsMiddle-if false t u ht hu = hu

pub IsMiddle-option :
    {A B : Type 0} (o : Option A) (t : M B) (f : A → M B)
    → IsMiddle t
    → ((a : A) → IsMiddle (f a))
    → IsMiddle (elim o [ none ↦ t | some a ↦ f a ])
IsMiddle-option none t f ht hf = ht
IsMiddle-option (some a) t f ht hf = hf a

module _ (evac : Evacuation) where
  -- Does the answer to a call show that the duty is done?
  abbrev pub shows : Duty → (c : Call) → Answer (Value c) → Bool
  shows (volume_gone target t) (get_zfs_volume n) (ok zv) =
      eqs n target.new_volume_handle && not (is_some zv)
  shows (backup_gone target t) (get_backup n) (ok b) =
      eqs n (bkp_name evac.metadata.name t.attempt) && not (is_some b)
  shows (restore_gone target t) (get_restore n) (ok r) =
      eqs n (rst_name evac.metadata.name t.attempt) && not (is_some r)
  shows (policy_back source orig) (get_pv n) (ok pv) =
      eqs n evac.spec.pv_name && not (is_some_and (λ p. has_uid source.pv_uid p.metadata) pv)
  shows (policy_back source orig) (patch_reclaim_policy n policy) (ok _) =
      eqs n evac.spec.pv_name && eqs policy orig
  shows (unlocked r) get_params (ok none) = true
  shows (unlocked r) get_params (ok (some p)) = is_unlocked r p.spec
  shows (unlocked r) (create_params spec) (ok _) = is_unlocked r spec
  shows (unlocked r) (replace_params p) (ok _) = is_unlocked r p.spec
  shows (unguarded source) (get_meta Kind.zfs_volume n) (ok none) = eqs n source.volume_handle
  shows (unguarded source) (get_meta Kind.zfs_volume n) (ok (some meta)) =
      eqs n source.volume_handle && not (contains guard_finalizer (unwrap_or [] meta.finalizers))
  shows (unguarded source) (patch_finalizers Kind.zfs_volume n fins) (ok _) =
      eqs n source.volume_handle && not (contains guard_finalizer fins)
  shows (source_gone source) (get_zfs_volume n) (ok zv) =
      eqs n source.volume_handle && not (is_some zv)
  shows (snapshot_gone target t) (get_snapshot n) (ok cr) = eqs n t.snap_name && not (is_some cr)
  shows trigger_off (get_pv n) (ok pv) =
      eqs n evac.spec.pv_name
      && not (
          is_some (and_then pv (λ p. and_then p.metadata.annotations (lookup evacuate_annotation))))
  shows trigger_off (patch_evacuate_annotation_null n) (ok _) = eqs n evac.spec.pv_name
  shows d c r = false

  module _ (d : Duty) where
    -- The evacuation ends only once the duty has been shown as done.
    abbrev pub duty_watch : Monitor
    duty_watch = record {
      State = Bool;
      Allowed = λ s c. is_end c ≡ true → s ≡ true;
      next = λ s c r. s || shows d c r;
    }

    abbrev pub Anyway : {A : Type 0} → Bool → Outcome A → Type 0
    Anyway s o = Unit

    -- What is once done stays so.
    abbrev pub Kept : {A : Type 0} → Bool → Bool → Outcome A → Type 0
    Kept before s o = before ≡ true → s ≡ true

    -- Where the tree returns, the duty is done.
    abbrev pub Performed : {A : Type 0} → Bool → Outcome A → Type 0
    Performed s (done a) = s ≡ true
    Performed s (raised e) = Unit

    abbrev pub Watched : {A : Type 0} → Bool → M A → Type 0
    Watched s tree = Safe duty_watch Anyway s tree

    abbrev pub Performs : {A : Type 0} → Bool → M A → Type 0
    Performs s tree = Safe duty_watch Performed s tree

  module _ (d : Duty) where
    -- Such a tree may stand before the rest, which keeps what was done.
    pub middle :
        {A B : Type 0} (Post : Bool → Outcome B → Type 0) (s : Bool) (tree : M A) (f : A → M B)
        → IsMiddle tree
        → ((s' : Bool) (a : A) → (s ≡ true → s' ≡ true) → Safe (duty_watch d) Post s' (f a))
        → ((s' : Bool) (e : _) → Post s' (raised e))
        → Safe (duty_watch d) Post s (tree >>= f)
    middle Post s (ret a) f h go stop = go s a (λ x. x)
    middle Post s (throw e) f h go stop = stop s e
    middle Post s (call c k) f h go stop = (
      λ end. ground arith,
      λ r.
          middle Post (s || shows d c r) (k r) f (h.1 r)
            (λ s' a kept. go s' a (λ x. kept (ground arith))) stop,
    )
    middle Post s (sense q k) f h go stop = λ r. middle Post s (k r) f (h r) go stop

    -- The same, where it is known what the tree returns.
    pub middle_returning :
        {A B : Type 0} (R : A → Type 0) (Post : Bool → Outcome B → Type 0) (s : Bool) (tree : M A)
        (f : A → M B)
        → IsMiddle tree
        → Returns R tree
        → ((s' : Bool) (a : A) → R a → Safe (duty_watch d) Post s' (f a))
        → ((s' : Bool) (e : _) → Post s' (raised e))
        → Safe (duty_watch d) Post s (tree >>= f)
    middle_returning R Post s (ret a) f h known go stop = go s a known
    middle_returning R Post s (throw e) f h known go stop = stop s e
    middle_returning R Post s (call c k) f h known go stop = (
      λ end. ground arith,
      λ r. middle_returning R Post (s || shows d c r) (k r) f (h.1 r) (known r) go stop,
    )
    middle_returning R Post s (sense q k) f h known go stop =
        λ r. middle_returning R Post s (k r) f (h r) (known r) go stop

    -- Once the duty is done, every such tree keeps it done.
    pub done_already :
        {A : Type 0} (Post : Bool → Outcome A → Type 0) (s : Bool) (tree : M A)
        → IsMiddle tree
        → s ≡ true
        → ((s' : Bool) (o : Outcome A) → s' ≡ true → Post s' o)
        → Safe (duty_watch d) Post s tree
    done_already Post s (ret a) h e post = post s (done a) e
    done_already Post s (throw x) h e post = post s (raised x) e
    done_already Post s (call c k) h e post =
        ((λ end. e), λ r. done_already Post (s || shows d c r) (k r) (h.1 r) (ground arith) post)
    done_already Post s (sense q k) h e post = λ r. done_already Post s (k r) (h r) e post
