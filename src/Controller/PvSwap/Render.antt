-- ===== src/Controller/PvSwap/Render.antt =====
-- src/controller/pv_swap.rs, `render_new_pv`: the replacement PV.
use zfs_evacuation_controlle.Base.{
  String, none, some, [], ◌∷◌, StrMap, lookup, insert, remove, map_option, is_some, if◌then◌else◌,
}
use zfs_evacuation_controlle.Kube.{
  PersistentVolume, CsiSource, ObjectReference, NodeAffinity, NodeSelectorRequirement,
}
use zfs_evacuation_controlle.Crd.Openebs.{named, node_id_topology_key, poolname_attribute}
use zfs_evacuation_controlle.Crd.Evacuation.{PvcRef, TargetInfo, evacuate_annotation}
use zfs_evacuation_controlle.Effect.{M, ret, require, ◌>>=◌}

-- The claim, pre-bound by the PVC's UID.
abbrev pub claim_of : PvcRef → ObjectReference
claim_of r = record {
  api_version = some "v1";
  kind = some "PersistentVolumeClaim";
  namespace = some r.namespace;
  name = some r.name;
  uid = some r.uid;
}

abbrev node_id_in : String → NodeSelectorRequirement
node_id_in id = record { key = node_id_topology_key; operator = "In"; values = some (id ∷ []) }

abbrev pub affinity_to : String → NodeAffinity
affinity_to id = record {
  required = some (record {
    node_selector_terms =
        record { match_expressions = some (node_id_in id ∷ []); match_fields = none } ∷ [];
  });
}

-- The pool attribute is rewritten only if the old PV has one.
abbrev pub with_pool : String → StrMap → StrMap
with_pool pool attrs =
    if is_some (lookup poolname_attribute attrs)
    then insert poolname_attribute pool attrs
    else attrs

abbrev pub retarget_csi : TargetInfo → CsiSource → CsiSource
retarget_csi target csi = record csi {
  volume_handle = target.new_volume_handle;
  volume_attributes = map_option (with_pool target.pool) csi.volume_attributes;
}

unfoldable pub render_new_pv : PersistentVolume → PvcRef → TargetInfo → M PersistentVolume
render_new_pv old_pv pvc_ref target = do
  spec ← require old_pv.spec "old PV has no spec"
  csi ← require spec.csi "old PV has no csi source"
  let meta = named old_pv.metadata.name
  ret (record {
    metadata = record meta {
      labels = old_pv.metadata.labels;
      annotations = map_option (remove evacuate_annotation) old_pv.metadata.annotations;
    };
    spec = some (record spec {
      claim_ref = some (claim_of pvc_ref);
      reclaim_policy = some "Retain";
      node_affinity = some (affinity_to target.node_id);
      csi = some (retarget_csi target csi);
    });
    phase = none;
  })
