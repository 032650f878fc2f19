-- ===== src/Behaviour/Creation.antt =====
-- src/controller/trigger.rs, `tick`: what has to be seen before an evacuation is created, and the fresh
-- reads of the two conditions.
pub mod Poll
pub mod Made
use zfs_evacuation_controlle.Base.{
  String, Bool, true, false, Option, none, some, ◌∷◌, ◌≡◌, refl, eqs, eq→eqs, ◌==◌, find, find_lem,
  is_some_and, if_elim, if◌then◌else◌,
}
use zfs_evacuation_controlle.Kube.{Node, PersistentVolume}
use zfs_evacuation_controlle.Crd.Openebs.{ZfsVolume}
use zfs_evacuation_controlle.Crd.Evacuation.{
  Evacuation, annotation, node_taint, when_idle, when_claimed,
}
use zfs_evacuation_controlle.Effect.{
  M, ret, try, ◌>>=◌, Call, Value, Answer, ok, err, api, transport, Kind, get_evacuation, get_pv,
  get_zfs_volume, get_node, list_nodes, delete, Monitor, Safe, Outcome, done,
}
use zfs_evacuation_controlle.Controller.Context.{Ctx}
use zfs_evacuation_controlle.Controller.Nodes.{
  node_by_id, find_node_by_id, node_id_of, node_has_evacuate_taint,
}
use zfs_evacuation_controlle.Controller.Trigger.{
  wants_evacuation, replaceable, removed, clear_for_creation, annotation_condition_fresh,
  has_handle, owner_tainted, taint_fresh, new_evacuation, create_evacuation,
}

-- What the poll has seen of one name, in order: the old evacuation, then the condition, afresh.
pub data Seen : Type 0 where
  nothing : Seen
  replacing clear : String → Seen
  pv_seen : String → PersistentVolume → Seen
  volume_seen : String → PersistentVolume → ZfsVolume → Seen
  owner_seen : String → PersistentVolume → ZfsVolume → Node → Seen

module _ (ctx : Ctx) where
  abbrev after_evacuation : String → Option Evacuation → Seen
  after_evacuation n none = clear n
  after_evacuation n (some e) = if replaceable e then replacing n else nothing

  abbrev after_delete : String → Answer (Unit {0}) → Seen
  after_delete n (ok _) = clear n
  after_delete n (err (api code)) = if code == 404 then clear n else nothing
  after_delete n (err transport) = nothing

  abbrev after_pv : String → Option PersistentVolume → Seen
  after_pv n none = nothing
  after_pv n (some pv) = pv_seen n pv

  abbrev after_volume : String → PersistentVolume → Option ZfsVolume → Seen
  after_volume n pv none = nothing
  after_volume n pv (some zv) = volume_seen n pv zv

  abbrev owner_of : String → PersistentVolume → ZfsVolume → Option Node → Seen
  owner_of n pv zv none = volume_seen n pv zv
  owner_of n pv zv (some node) =
      if eqs (node_id_of node) zv.spec.owner_node_id
      then owner_seen n pv zv node
      else volume_seen n pv zv

  abbrev pub seen_after : Seen → (c : Call) → Answer (Value c) → Seen
  seen_after s (get_evacuation n) (ok e) = after_evacuation n e
  seen_after (replacing m) (delete Kind.evacuation n) r = after_delete n r
  seen_after (clear m) (get_pv n) (ok pv) = if eqs m n then after_pv n pv else nothing
  seen_after (pv_seen n pv) (get_zfs_volume h) (ok zv) =
      if has_handle h pv then after_volume n pv zv else nothing
  seen_after (volume_seen n pv zv) (get_node id) (ok node) = owner_of n pv zv node
  seen_after (volume_seen n pv zv) (get_node id) (err e) = volume_seen n pv zv
  seen_after (volume_seen n pv zv) list_nodes (ok nodes) =
      owner_of n pv zv (find (λ k. eqs (node_id_of k) zv.spec.owner_node_id) nodes)
  seen_after s c r = nothing

  -- A creation for the annotation, or for the taint of the node that owns the volume.
  abbrev pub Due : Seen → Evacuation → Type 0
  Due (pv_seen n pv) e = (e ≡ new_evacuation n annotation when_idle) × (wants_evacuation pv ≡ true)
  Due (owner_seen n pv zv node) e =
      (e ≡ new_evacuation n node_taint when_claimed)
      × (node_has_evacuate_taint node ctx.cfg.taint_key ≡ true)
  Due s e = ⊥

  abbrev pub Permitted : Seen → Call → Type 0
  Permitted s (Call.create_evacuation e) = Due s e
  Permitted s (delete k n) = (k ≡ Kind.evacuation) × (s ≡ replacing n)
  Permitted s (Call.patch_status n t) = ⊥
  Permitted s (Call.create_pv pv) = ⊥
  Permitted s (Call.patch_finalizers k n fins) = ⊥
  Permitted s _ = Unit

  abbrev pub creation_watch : Monitor
  creation_watch = record { State = Seen; Allowed = Permitted; next = seen_after }

  abbrev pub Anyway : {A : Type 0} → Seen → Outcome A → Type 0
  Anyway s o = Unit

  abbrev pub Cleared : String → Seen → Outcome Bool → Type 0
  Cleared n s (done true) = s ≡ clear n
  Cleared n s _ = Unit

  pub clear_for_creation-Safe :
      (n : String) (s : Seen) → Safe creation_watch (Cleared n) s (clear_for_creation n)
  unfolding clear_for_creation
  clear_for_creation-Safe n s = (
    tt,
    elim [ ok none ↦ refl | ok (some existing) ↦ replaced (replaceable existing) | err e ↦ tt ],
  )
    where
      gone_case : (a : Answer (Unit {0})) → Cleared n (after_delete n a) (done (removed a))
      gone_case (ok x) = refl
      gone_case (err (api code)) = by_code (code == 404)
        where
          by_code : (b : Bool) → Cleared n (if b then clear n else nothing) (done b)
          by_code true = refl
          by_code false = tt
      gone_case (err transport) = tt

      replaced :
          (b : Bool)
          → Safe creation_watch (Cleared n) (if b then replacing n else nothing) (
              if b
              then (try (delete Kind.evacuation n) >>= λ gone. ret (removed gone))
              else ret false)
      replaced true = ((refl, refl), gone_case)
      replaced false = tt

  abbrev pub Checked : Evacuation → Seen → Outcome Bool → Type 0
  Checked e s (done true) = Due s e
  Checked e s _ = Unit

  pub annotation_condition_fresh-Safe :
      (n : String)
      → Safe creation_watch
          (Checked (new_evacuation n annotation when_idle))
          (clear n)
          (annotation_condition_fresh n)
  unfolding annotation_condition_fresh
  annotation_condition_fresh-Safe n = (
    tt,
    elim [
      | ok none ↦ tt
      | ok (some pv) ↦ rw (eq→eqs n n refl) (wanted pv (wants_evacuation pv) refl)
      | err e ↦ tt
    ],
  )
    where
      wanted :
          (pv : PersistentVolume) (b : Bool)
          → wants_evacuation pv ≡ b
          → Checked (new_evacuation n annotation when_idle) (pv_seen n pv) (done b)
      wanted pv true h = (refl, h)
      wanted pv false h = tt

  module _ (n handle : String) (pv : PersistentVolume) (held : has_handle handle pv ≡ true) where
    abbrev tainted : Evacuation
    tainted = new_evacuation n node_taint when_claimed

    module _ (zv : ZfsVolume) where
      abbrev is_owner : Node → Bool
      is_owner k = eqs (node_id_of k) zv.spec.owner_node_id

      taint_case :
          (k : Node) (b : Bool)
          → node_has_evacuate_taint k ctx.cfg.taint_key ≡ b
          → Checked tainted (owner_seen n pv zv k) (done b)
      taint_case k true h = (refl, h)
      taint_case k false h = tt

      owner_lem :
          (o : Option Node)
          → ((k : Node) → o ≡ some k → is_owner k ≡ true)
          → Checked tainted
              (owner_of n pv zv o)
              (done (is_some_and (λ k. node_has_evacuate_taint k ctx.cfg.taint_key) o))
      owner_lem none h = tt
      owner_lem (some k) h = rw (h k refl) (taint_case k _ refl)

      abbrev judged : M (Option Node) → M Bool
      judged t =
          t >>= λ node. ret (is_some_and (λ k. node_has_evacuate_taint k ctx.cfg.taint_key) node)

      listing-Safe :
          Safe creation_watch
            (Checked tainted)
            (volume_seen n pv zv)
            (judged (find_node_by_id zv.spec.owner_node_id))
      unfolding find_node_by_id
      listing-Safe = (
        tt,
        elim [
          | ok nodes ↦ owner_lem (find is_owner nodes) (λ k e. (find_lem is_owner nodes k e).1)
          | err e ↦ tt
        ],
      )

      named_case :
          (k : Node) (b : Bool)
          → is_owner k ≡ b
          → Safe creation_watch
              (Checked tainted)
              (if b then owner_seen n pv zv k else volume_seen n pv zv)
              (judged (if b then ret (some k) else find_node_by_id zv.spec.owner_node_id))
      named_case k true h = taint_case k _ refl
      named_case k false h = listing-Safe

      node_by_id-Safe :
          Safe creation_watch
            (Checked tainted)
            (volume_seen n pv zv)
            (judged (node_by_id zv.spec.owner_node_id))
      unfolding node_by_id
      node_by_id-Safe = (
        tt,
        elim [ ok none ↦ listing-Safe | ok (some k) ↦ named_case k (is_owner k) refl | err e ↦ tt ],
      )

    owner_tainted-Safe :
        Safe creation_watch (Checked tainted) (pv_seen n pv) (owner_tainted ctx handle)
    unfolding owner_tainted
    owner_tainted-Safe =
        (tt, elim [ ok none ↦ tt | ok (some zv) ↦ rw held (node_by_id-Safe zv) | err e ↦ tt ])

  pub taint_fresh-Safe :
      (n handle : String)
      → Safe creation_watch
          (Checked (new_evacuation n node_taint when_claimed))
          (clear n)
          (taint_fresh ctx n handle)
  unfolding taint_fresh
  taint_fresh-Safe n handle = (
    tt,
    elim [
      | ok none ↦ tt
      | ok (some pv) ↦ rw (eq→eqs n n refl) (
          if_elim
            (Safe creation_watch (Checked (new_evacuation n node_taint when_claimed))
              (pv_seen n pv))
            (has_handle handle pv) _ _ (λ held. owner_tainted-Safe n handle pv held) (λ _. tt))
      | err e ↦ tt
    ],
  )
