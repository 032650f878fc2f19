-- ===== src/Controller/Target/Ledger.antt =====
-- src/controller/target.rs: pool names, and the reservations of the evacuations in flight.
use Prim.Native.Char.{code}
use Prim.Native.String.{String}
use zfs_evacuation_controlle.Base.{
  ℕ, ◌+◌, Bool, true, false, not, ◌&&◌, Option, none, some, List, [], ◌∷◌, map, eqs, keep, and_then,
  map_option, is_some, is_some_and, unwrap_or, sum, contains, ◌==◌, if◌then◌else◌,
}
use zfs_evacuation_controlle.Crd.Evacuation.{
  Evacuation, EvacuationStatus, ColocationMember, TargetInfo, Phase,
}

-- `poolname.split('/').next()`
unfoldable pub pool_component : String → String
pool_component String.[] = String.[]
pool_component (String.◌∷◌ c s) =
    let rest = pool_component s in if code c == b'/' then String.[] else String.◌∷◌ c rest

-- The destination, and the rule that picked it.
unfoldable pub resolve_dest_poolname : Option String → Option String → String → String × String
resolve_dest_poolname (some tp) sc source_pool = (tp, "spec.targetPool")
resolve_dest_poolname none (some sc) source_pool = (sc, "StorageClass poolname")
resolve_dest_poolname none none source_pool =
    (source_pool, "source poolName (StorageClass unavailable)")

unfoldable pub capacity_of_evac : Evacuation → ℕ
capacity_of_evac e =
    unwrap_or 0 (map_option (λ s. s.capacity_bytes) (and_then e.status (λ s. s.source)))

-- The reserved bytes of each node and zpool, zero where there is no entry, and the busy targets.
pub record Ledger : Type 0 where
  pub reserved : String → String → ℕ
  pub busy_targets : List String

abbrev pub empty_ledger : Ledger
empty_ledger = record { reserved = λ node pool. 0; busy_targets = [] }

-- `*reserved.entry((node, pool)).or_default() += bytes`
abbrev pub reserve : String → String → ℕ → (String → String → ℕ) → String → String → ℕ
reserve node pool bytes reserved n p =
    if eqs node n && eqs pool p then reserved n p + bytes else reserved n p

-- The members that `e` holds space for: not itself, not the one that is choosing, none placed.
abbrev pub held_members : String → List String → Evacuation → List ColocationMember → ℕ
held_members evac_name placed e members = sum (
    map (λ m. m.capacity_bytes)
      (keep (λ m. not (eqs m.pv_name evac_name) && not (contains m.pv_name placed))
        (keep (λ m. not (eqs m.pv_name e.metadata.name)) members)))

abbrev is_failed : Phase → Bool
is_failed Phase.failed = true
is_failed _ = false

abbrev is_completed : Phase → Bool
is_completed Phase.completed = true
is_completed _ = false

-- What an evacuation with a target adds.
abbrev record_target :
    String → List String → Evacuation → EvacuationStatus → TargetInfo → Ledger → Ledger
record_target evac_name placed e st t ledger =
    let held : ℕ = elim st.colocation [
      | none ↦ 0
      | some c ↦ held_members evac_name placed e c.members
    ] in
    let own = if is_completed st.phase then 0 else capacity_of_evac e in
    record {
      reserved = reserve t.node_id (pool_component t.pool) (own + held) ledger.reserved;
      busy_targets =
          if is_completed st.phase then ledger.busy_targets else t.node_id ∷ ledger.busy_targets;
    }

-- One round of the loop over all evacuations.
unfoldable pub ledger_step : String → List String → Evacuation → Ledger → Ledger
ledger_step evac_name placed e ledger =
    if eqs e.metadata.name evac_name then ledger else elim e.status [
      | none ↦ ledger
      | some st ↦ if is_failed st.phase then ledger else elim st.target [
        | none ↦ ledger
        | some t ↦ record_target evac_name placed e st t ledger
      ]
    ]

unfoldable pub ledger_from : String → List String → List Evacuation → Ledger → Ledger
ledger_from evac_name placed [] ledger = ledger
ledger_from evac_name placed (e ∷ es) ledger =
    ledger_from evac_name placed es (ledger_step evac_name placed e ledger)

abbrev pub placed_names : List Evacuation → List String
placed_names es =
    map (λ e. e.metadata.name) (keep (λ e. is_some_and (λ s. is_some s.target) e.status) es)

unfoldable pub ledger_of : String → List Evacuation → Ledger
ledger_of evac_name es = ledger_from evac_name (placed_names es) es empty_ledger
