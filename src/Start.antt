-- ===== src/Start.antt =====
-- src/main.rs: the configuration from the environment, and the order of the start: nothing is
-- reconciled before the leadership is won. The printing of the resource definitions, the logging and the
-- client are the libraries'.
pub mod Order
use zfs_evacuation_controlle.Base.{
  ℕ, String, Bool, Option, none, some, List, ◌∷◌, and_then, map_option, unwrap_or, codes, show,
  contains, ltb, ◌^◌, ◌<>◌, if◌then◌else◌,
}
use zfs_evacuation_controlle.Controller.Context.{Config}
use zfs_evacuation_controlle.Controller.Quantity.{parse_u128}
use zfs_evacuation_controlle.Leader.{Attempted, Tenure, acquire}

-- `std::env::var(…).ok()`
abbrev pub Environment : Type 0
Environment = String → Option String

-- `str::parse::<u64>`
abbrev pub parse_u64 : String → Option ℕ
parse_u64 v = and_then (parse_u128 (codes v)) (λ n. if ltb n (2 ^ 64) then some n else none)

abbrev pub with_ip : Environment → String → Config
with_ip env pod_ip = record {
  openebs_ns = unwrap_or "openebs" (env "OPENEBS_NAMESPACE");
  pod_ip = pod_ip;
  pod_namespace = unwrap_or "zfs-evacuation-system" (env "POD_NAMESPACE");
  stall_seconds = unwrap_or 120 (and_then (env "TRANSFER_STALL_SECONDS") parse_u64);
  taint_key = unwrap_or "zfsevac.alumino.us/evacuate" (env "EVACUATE_TAINT_KEY");
}

-- None where POD_IP is not set, which is an error.
unfoldable pub config_of : Environment → Option Config
config_of env = map_option (with_ip env) (env "POD_IP")

unfoldable pub identity_of : Environment → ℕ → String
identity_of env pid = elim (env "POD_NAME") [
  | some name ↦ name
  | none ↦ unwrap_or ("zfs-evac-" <> show pid) (env "HOSTNAME")
]

-- How far the start comes. `working`: the trigger and the reconciler run, for the tenure.
pub data Startup : Type 0 where
  printed unconfigured unconnected : Startup
  waiting : Config → String → Startup
  working : Config → String → Tenure → Startup

abbrev pub lead : Config → String → Option Tenure → Startup
lead cfg identity none = waiting cfg identity
lead cfg identity (some tenure) = working cfg identity tenure

-- `main`, with the process's arguments, its id, whether a client can be made, and the rounds of the
-- election.
unfoldable pub start : List String → Environment → ℕ → Bool → List (Attempted × ℕ) → Startup
start args env pid connects rounds =
    if contains "--print-crds" args then printed else elim (config_of env) [
      | none ↦ unconfigured
      | some cfg ↦ if connects then lead cfg (identity_of env pid) (acquire rounds) else unconnected
    ]
