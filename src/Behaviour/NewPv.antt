-- ===== src/Behaviour/NewPv.antt =====
-- src/controller/pv_swap.rs, `render_new_pv`.
use zfs_evacuation_controlle.Base.{
  String, true, Option, none, some, [], ◌∷◌, ◌≡◌, refl, subst, StrMap, lookup, insert, remove,
  lookup-insert, lookup-remove, map_option, is_some, eqs, eqs→eq, eq→eqs, arith, ◌∙◌, if◌then◌else◌,
}
use zfs_evacuation_controlle.Kube.{PersistentVolume, PvSpec, CsiSource}
use zfs_evacuation_controlle.Crd.Openebs.{poolname_attribute, named}
use zfs_evacuation_controlle.Crd.Evacuation.{PvcRef, TargetInfo, evacuate_annotation}
use zfs_evacuation_controlle.Effect.{ret}
use zfs_evacuation_controlle.Controller.PvSwap.{
  render_new_pv, claim_of, affinity_to, with_pool, retarget_csi, is_rebound,
}

-- The value of a key in an optional map.
abbrev pub value_of : String → Option StrMap → Option String
value_of k none = none
value_of k (some m) = lookup k m

at_key :
    (key k : String) (m : StrMap) (old : Option String)
    → lookup key m ≡ old
    → eqs key k ≡ true
    → lookup k m ≡ old
at_key key k m old e h = subst (λ x. lookup x m ≡ old) (eqs→eq key k h) e

-- The pool attribute names the target's pool where there was one; all others are the old ones.
pool_lem :
    (pool k : String) (m : StrMap) (old : Option String)
    → lookup poolname_attribute m ≡ old
    → lookup k (if is_some old then insert poolname_attribute pool m else m)
      ≡ (if eqs poolname_attribute k then map_option (λ x. pool) (lookup k m) else lookup k m)
pool_lem pool k m none e = let same = at_key poolname_attribute k m none e in ground arith
pool_lem pool k m (some x) e =
    let same = at_key poolname_attribute k m (some x) e in
    lookup-insert poolname_attribute k pool m ∙ ground arith

attributes_lem :
    (pool k : String) (attrs : Option StrMap)
    → value_of k (map_option (with_pool pool) attrs) ≡ (
        if eqs poolname_attribute k
        then map_option (λ old. pool) (value_of k attrs)
        else value_of k attrs)
attributes_lem pool k none = ground arith
attributes_lem pool k (some m) = pool_lem pool k m (lookup poolname_attribute m) refl

annotations_lem :
    (k : String) (anns : Option StrMap)
    → value_of k (map_option (remove evacuate_annotation) anns)
      ≡ (if eqs evacuate_annotation k then none else value_of k anns)
annotations_lem k none = ground arith
annotations_lem k (some m) = lookup-remove evacuate_annotation k m

module _ (old_pv : PersistentVolume) (r : PvcRef) (target : TargetInfo) where
  -- What the replacement takes from the old PV, and what it changes.
  pub record Replaces (new : PersistentVolume) (old_spec : PvSpec) (old_csi : CsiSource)
      : Type 0 where
    pub name : new.metadata.name ≡ old_pv.metadata.name
    pub labels : new.metadata.labels ≡ old_pv.metadata.labels
    pub unowned : (new.metadata.uid ≡ none) × (new.metadata.finalizers ≡ none)
    pub annotations :
        (k : String)
        → value_of k new.metadata.annotations ≡ (
            if eqs "zfsevac.alumino.us/evacuate" k
            then none
            else value_of k old_pv.metadata.annotations)
    pub spec : PvSpec
    pub csi : CsiSource
    pub has_spec : new.spec ≡ some spec
    pub has_csi : spec.csi ≡ some csi
    pub driver : csi.driver ≡ old_csi.driver
    pub fs_type : csi.fs_type ≡ old_csi.fs_type
    pub handle : csi.volume_handle ≡ target.new_volume_handle
    pub attributes :
        (k : String)
        → value_of k csi.volume_attributes ≡ (
            if eqs "openebs.io/poolname" k
            then map_option (λ old. target.pool) (value_of k old_csi.volume_attributes)
            else value_of k old_csi.volume_attributes)
    pub claim :
        spec.claim_ref
        ≡ some (record {
          api_version = some "v1";
          kind = some "PersistentVolumeClaim";
          namespace = some r.namespace;
          name = some r.name;
          uid = some r.uid;
        })
    pub policy : spec.reclaim_policy ≡ some "Retain"
    -- The one required term has one expression: the label's value is the target node's id.
    pub affinity :
        spec.node_affinity
        ≡ some (record {
          required = some (record {
            node_selector_terms =
                record {
                  match_expressions = some (
                      record {
                        key = "openebs.io/nodeid";
                        operator = "In";
                        values = some (target.node_id ∷ []);
                      }
                      ∷ []);
                  match_fields = none;
                }
                ∷ [];
          });
        })
    pub class : spec.storage_class_name ≡ old_spec.storage_class_name
    pub capacity : spec.capacity ≡ old_spec.capacity
    pub access : spec.access_modes ≡ old_spec.access_modes
    -- Once it is bound, the swap takes it for the rebound PV.
    pub rebinds : is_rebound r (record new { phase = some "Bound" }) ≡ true

  abbrev replaced_spec : PvSpec → CsiSource → PvSpec
  replaced_spec spec csi = record spec {
    claim_ref = some (claim_of r);
    reclaim_policy = some "Retain";
    node_affinity = some (affinity_to target.node_id);
    csi = some (retarget_csi target csi);
  }

  abbrev replacement : PvSpec → CsiSource → PersistentVolume
  replacement spec csi =
      let meta = named old_pv.metadata.name in
      record {
        metadata = record meta {
          labels = old_pv.metadata.labels;
          annotations = map_option (remove evacuate_annotation) old_pv.metadata.annotations;
        };
        spec = some (replaced_spec spec csi);
        phase = none;
      }

  replacement-Replaces :
      (spec : PvSpec) (csi : CsiSource) → Replaces (replacement spec csi) spec csi
  replacement-Replaces spec csi = record {
    name = refl;
    labels = refl;
    unowned = (refl, refl);
    annotations = λ k. annotations_lem k old_pv.metadata.annotations;
    spec = replaced_spec spec csi;
    csi = retarget_csi target csi;
    has_spec = refl;
    has_csi = refl;
    driver = refl;
    fs_type = refl;
    handle = refl;
    attributes = λ k. attributes_lem target.pool k csi.volume_attributes;
    claim = refl;
    policy = refl;
    affinity = refl;
    class = refl;
    capacity = refl;
    access = refl;
    rebinds = eq→eqs r.uid r.uid refl;
  }

  -- Of a CSI volume, a new PV is rendered: it has the old name and labels, and the annotations less
  -- the trigger; its volume handle is the target's, driver and file system the old ones; of the volume
  -- attributes only the pool name changes, to the target's, where it was given; it is bound to the
  -- claim by namespace, name and UID, kept at Retain, and confined to nodes whose
  -- openebs.io/nodeid is the target's; class, capacity and access modes are the old ones; and once
  -- it is Bound, the swap recognises it.
  pub render_new_pv_lem :
      (spec : PvSpec) (csi : CsiSource)
      → old_pv.spec ≡ some spec
      → spec.csi ≡ some csi
      → (new : PersistentVolume) × (render_new_pv old_pv r target ≡ ret new) × Replaces new spec csi
  unfolding render_new_pv
  render_new_pv_lem spec csi e f =
      (replacement spec csi, rw (e, f) refl, replacement-Replaces spec csi)
