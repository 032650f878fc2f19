-- ===== src/Controller/Phases/Pending.antt =====
-- src/controller/state_machine.rs, `pending`: what is refused up front, and what is recorded.
use Prim.Native.String.{len}
use zfs_evacuation_controlle.Base.{
  ℕ, String, Bool, not, ◌&&◌, ◌||◌, Option, none, some, List, [], ◌∷◌, codes, is_ascii_alphanumeric,
  eqs, any, all, first, and_then, is_some, is_some_and, unwrap_or, is_empty, lookup, leb, ◌==◌, hex,
  ◌<>◌, if◌then◌else◌,
}
use zfs_evacuation_controlle.Kube.{
  Node, PersistentVolume, PvSpec, CsiSource, ObjectReference, PersistentVolumeClaim,
}
use zfs_evacuation_controlle.Crd.Openebs.{ZfsVolume, zfs_driver, marked_for_deletion}
use zfs_evacuation_controlle.Crd.Evacuation.{Evacuation, EvacuationStatus, Phase}
use zfs_evacuation_controlle.Effect.{M, ask, ◌>>=◌, get_pv, get_pvc, get_zfs_volume, list_snapshots}
use zfs_evacuation_controlle.Controller.Context.{Ctx, Action}
use zfs_evacuation_controlle.Controller.Nodes.{node_by_id}
use zfs_evacuation_controlle.Controller.Steps.{advance, fail}
use zfs_evacuation_controlle.Controller.Colocation.{capacity_of_volume}

-- `format!("zevac-{:032x}", …)`
unfoldable pub new_destination_handle : ℕ → String
new_destination_handle random = "zevac-" <> hex 32 random

-- The last element, `last()`.
abbrev last_of : List ℕ → Option ℕ
last_of [] = none
last_of (c ∷ []) = some c
last_of (c ∷ d ∷ ds) = last_of (d ∷ ds)

unfoldable pub is_label_byte : ℕ → Bool
unfolding is_ascii_alphanumeric
is_label_byte b = is_ascii_alphanumeric b || ((b == b'-') || ((b == b'_') || (b == b'.')))

-- `len` counts bytes; the tests on bytes fail at any code point beyond ASCII, as at its bytes.
unfoldable pub source_handle_fits_snapshot_label : String → Bool
unfolding is_label_byte
source_handle_fits_snapshot_label handle =
    let bytes = codes handle in
    leb (len handle) 63
    && (is_some_and is_ascii_alphanumeric (first bytes)
        && (is_some_and is_ascii_alphanumeric (last_of bytes) && all is_label_byte bytes))

abbrev pub is_resizing : PersistentVolumeClaim → Bool
is_resizing pvc =
    is_some_and
      (any (λ c.
        (eqs c.type_ "Resizing" || eqs c.type_ "FileSystemResizePending") && eqs c.status "True"))
      pvc.conditions

-- What the checks have established so far.
pub record Bound : Type 0 where
  pub pv : PersistentVolume
  pub spec : PvSpec
  pub handle : String
  pub namespace : String
  pub pvc_name : String
  pub pvc : PersistentVolumeClaim

-- The identity of the claim and of the source, recorded before anything is touched.
abbrev pub recorded : Bound → ZfsVolume → Node → ℕ → EvacuationStatus → EvacuationStatus
recorded b zv src_node capacity_bytes st = record st {
  pvc_ref = some (record {
    namespace = b.namespace;
    name = b.pvc_name;
    uid = unwrap_or "" b.pvc.metadata.uid;
  });
  source = some (record {
    node = src_node.metadata.name;
    node_id = zv.spec.owner_node_id;
    pool = zv.spec.pool_name;
    volume_handle = b.handle;
    pv_uid = unwrap_or "" b.pv.metadata.uid;
    capacity_bytes = capacity_bytes;
  });
  original_reclaim_policy = b.spec.reclaim_policy;
}

-- The source node must be there to send.
unfoldable pub check_source_node :
    Ctx → Evacuation → EvacuationStatus → Bound → ZfsVolume → M Action
check_source_node ctx evac st b zv = do
  let name = evac.metadata.name
  found ← node_by_id zv.spec.owner_node_id
  elim found [
    | none ↦
        fail name st
          ("source node with nodeid " <> zv.spec.owner_node_id <> " not found; data is unreachable")
    | some src_node ↦
        (let capacity_bytes = capacity_of_volume ctx zv in
          if capacity_bytes == 0
          then fail name st "could not determine volume capacity"
          else advance name (recorded b zv src_node capacity_bytes st) Phase.guarding)
  ]

-- No deletion under way, no clone, no snapshots.
unfoldable pub check_volume : Ctx → Evacuation → EvacuationStatus → Bound → ZfsVolume → M Action
check_volume ctx evac st b zv =
    let name = evac.metadata.name in
    if is_some (and_then zv.metadata.annotations (lookup marked_for_deletion))
    then fail name st "ZFSVolume is marked for deletion"
    else if not (eqs (unwrap_or "" zv.spec.snapname) "")
    then fail name st "volume is a clone; clone migration is unsupported"
    else do
      snaps ← ask (list_snapshots b.handle)
      if is_empty snaps
          then check_source_node ctx evac st b zv
          else fail name st
              "volume has ZFSSnapshots; delete them before evacuating (snapshot migration unsupported)"

-- The claim refers back to the PV and is not being resized.
unfoldable pub check_claim : Ctx → Evacuation → EvacuationStatus → Bound → M Action
check_claim ctx evac st b =
    let name = evac.metadata.name in
    if not (is_some_and (λ v. eqs v evac.spec.pv_name) (and_then b.pvc.spec (λ s. s.volume_name)))
    then fail name st "PVC does not reference this PV"
    else if is_resizing b.pvc
    then fail name st "PVC has a resize in progress"
    else do
      zv ← ask (get_zfs_volume b.handle)
      elim zv [
        | none ↦ fail name st ("ZFSVolume " <> b.handle <> " not found")
        | some z ↦ check_volume ctx evac st b z
      ]

unfoldable pub check_bound :
    Ctx
    → Evacuation
    → EvacuationStatus
    → PersistentVolume
    → PvSpec
    → String
    → ObjectReference
    → M Action
check_bound ctx evac st pv spec handle claim =
    let name = evac.metadata.name in
    elim claim.namespace [
      | none ↦ fail name st "PV claimRef missing namespace/name"
      | some ns ↦ elim claim.name [
        | none ↦ fail name st "PV claimRef missing namespace/name"
        | some pvc_name ↦ do
          found ← ask (get_pvc ns pvc_name)
          elim found [
            | none ↦ fail name st ("bound PVC " <> ns <> "/" <> pvc_name <> " not found")
            | some pvc ↦ check_claim ctx evac st (record {
              pv = pv;
              spec = spec;
              handle = handle;
              namespace = ns;
              pvc_name = pvc_name;
              pvc = pvc;
            })
          ]
      ]
    ]

unfoldable pub check_csi :
    Ctx → Evacuation → EvacuationStatus → PersistentVolume → PvSpec → CsiSource → M Action
check_csi ctx evac st pv spec csi =
    let name = evac.metadata.name in
    let handle = csi.volume_handle in
    if not (eqs csi.driver zfs_driver)
    then fail name st ("PV driver " <> csi.driver <> " is not " <> zfs_driver)
    else if not (source_handle_fits_snapshot_label handle)
    then fail name st (
        "source volume handle " <> handle <> " cannot be used as a Kubernetes snapshot label value")
    else elim spec.claim_ref [
      | none ↦ fail name st "PV has no claimRef (unbound PVs need no evacuation)"
      | some claim ↦ check_bound ctx evac st pv spec handle claim
    ]

-- A PV with no spec has no CSI source.
unfoldable pub pending : Ctx → Evacuation → EvacuationStatus → M Action
pending ctx evac st = do
  let name = evac.metadata.name
  found ← ask (get_pv evac.spec.pv_name)
  elim found [
    | none ↦ fail name st ("PV " <> evac.spec.pv_name <> " not found")
    | some pv ↦ elim pv.spec [
      | none ↦ fail name st "PV is not a CSI volume"
      | some spec ↦ elim spec.csi [
        | none ↦ fail name st "PV is not a CSI volume"
        | some csi ↦ check_csi ctx evac st pv spec csi
      ]
    ]
  ]
