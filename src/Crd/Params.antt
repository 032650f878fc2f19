-- ===== src/Crd/Params.antt =====
-- src/crd/zfs_evacuation.rs, `EvacuationParamsSpec`: the PVC keys that the admission policy locks.
pub mod Locking
use zfs_evacuation_controlle.Base.{
  String, Bool, not, ◌||◌, ◌+◌, List, [], ◌∷◌, ◌++◌, keep, length, contains, eqs, ◌==◌,
  if◌then◌else◌,
}
use zfs_evacuation_controlle.Crd.Evacuation.{EvacuationMode, when_idle, when_claimed}

pub record ParamsSpec : Type 0 where
  pub pvc_keys : List String
  pub claimable_pvc_keys : List String

-- The object: the resource version makes a concurrent `replace` conflict.
pub record EvacuationParams : Type 0 where
  pub resource_version : String
  pub spec : ParamsSpec

abbrev pub default_params : ParamsSpec
default_params = record { pvc_keys = []; claimable_pvc_keys = [] }

-- `retain(|k| k != key)`
abbrev pub without : String → List String → List String
without key = keep (λ k. not (eqs k key))

-- `if !into.iter().any(|k| k == key) { into.push(key) }`
abbrev pub pushed : String → List String → List String
pushed key into = if contains key into then into else into ++ key ∷ []

-- What `lock` does to the list of the mode and to the other one.
unfoldable pub lock_lists : String → List String → List String → (List String × List String) × Bool
lock_lists key into out_of =
    let out' = without key out_of in
    ((pushed key into, out'), not (contains key into) || not (length out' == length out_of))

unfoldable pub lock : String → EvacuationMode → ParamsSpec → ParamsSpec × Bool
unfolding lock_lists
lock key when_idle p =
    let (lists, changed) = lock_lists key p.pvc_keys p.claimable_pvc_keys in
    (record { pvc_keys = lists.0; claimable_pvc_keys = lists.1 }, changed)
lock key when_claimed p =
    let (lists, changed) = lock_lists key p.claimable_pvc_keys p.pvc_keys in
    (record { pvc_keys = lists.1; claimable_pvc_keys = lists.0 }, changed)

unfoldable pub unlock : String → ParamsSpec → ParamsSpec × Bool
unlock key p =
    let before = length p.pvc_keys + length p.claimable_pvc_keys in
    let keys = without key p.pvc_keys in
    let claimable = without key p.claimable_pvc_keys in
    (
      record { pvc_keys = keys; claimable_pvc_keys = claimable },
      not (length keys + length claimable == before),
    )
