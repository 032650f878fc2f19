-- ===== src/Controller/Transfer/Crs.antt =====
-- src/controller/transfer.rs: the names of an attempt's resources, and their deletion.
use zfs_evacuation_controlle.Base.{
  ℕ, String, Bool, true, false, Option, none, some, map_option, show, ◌<>◌, if◌then◌else◌, ◌&&◌,
}
use zfs_evacuation_controlle.Crd.Evacuation.{EvacuationStatus}
use zfs_evacuation_controlle.Effect.{
  M, ret, ask, ◌>>=◌, ◌>>◌, Kind, get_backup, get_restore, delete, local, remove_relay,
}
use zfs_evacuation_controlle.Controller.Steps.{strip_zfs_finalizer_if_node_gone}

unfoldable pub bkp_name : String → ℕ → String
bkp_name evac attempt = evac <> "-evac-a" <> show attempt

unfoldable pub rst_name : String → ℕ → String
rst_name evac attempt = evac <> "-evacr-a" <> show attempt

-- The table entry goes, and its task is aborted with it.
unfoldable pub drop_relay : String → M (Unit {0})
drop_relay name = do local (remove_relay name); ret tt

-- One resource: delete it, or, where a delete is under way and its node is gone, free it.
unfoldable pub delete_or_strip : Kind → String → Bool → Option String → M (Unit {0})
delete_or_strip kind name deleting node_id =
    if deleting
    then elim node_id [ none ↦ ret tt | some nid ↦ strip_zfs_finalizer_if_node_gone kind name nid ]
    else ask (delete kind name)

-- Tells if the backup was gone already.
unfoldable pub cleanup_backup : String → Option String → M Bool
cleanup_backup b node_id = do
  cr ← ask (get_backup b)
  elim cr [
    | none ↦ ret true
    | some c ↦ (do delete_or_strip Kind.zfs_backup b c.metadata.deleting node_id; ret false)
  ]

unfoldable pub cleanup_restore : String → Option String → M Bool
cleanup_restore r node_id = do
  cr ← ask (get_restore r)
  elim cr [
    | none ↦ ret true
    | some c ↦ (do delete_or_strip Kind.zfs_restore r c.metadata.deleting node_id; ret false)
  ]

unfoldable pub cleanup_transfer_crs : String → ℕ → EvacuationStatus → M Bool
cleanup_transfer_crs evac_name attempt st = do
  bkp_gone ← cleanup_backup (bkp_name evac_name attempt) (map_option (λ s. s.node_id) st.source)
  rst_gone ← cleanup_restore (rst_name evac_name attempt) (map_option (λ t. t.node_id) st.target)
  ret (bkp_gone && rst_gone)
