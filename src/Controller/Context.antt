-- ===== src/Controller/Context.antt =====
-- src/controller/mod.rs: the configuration, the writes of status and of the locked keys, and the
-- library functions that the controller calls.
use zfs_evacuation_controlle.Base.{
  ℕ, zero, suc, String, Bool, Option, none, some, List, ◌<>◌, ◌*◌, if◌then◌else◌, ◌==◌,
}
use zfs_evacuation_controlle.Kube.{PersistentVolume}
use zfs_evacuation_controlle.Crd.Evacuation.{EvacuationStatus, params_name}
use zfs_evacuation_controlle.Crd.Params.{ParamsSpec, EvacuationParams, default_params}
use zfs_evacuation_controlle.Effect.{
  M, ret, throw, ask, try, ◌>>=◌, patch_status, get_params, create_params, replace_params, ok, err,
  api, transport, kube, other, Answer, KubeError, Error, IpAddr,
}

pub record Config : Type 0 where
  pub openebs_ns : String
  pub pod_ip : String
  pub pod_namespace : String
  pub stall_seconds : ℕ
  pub taint_key : String

-- What the source takes from libraries: JSON of a PV (serde_json), addresses (std::net), the
-- text of an API error, and the 64-bit floats, given by their bit patterns.
pub record Libs : Type 0 where
  pub pv_to_string : PersistentVolume → Option String
  pub pv_from_str : String → Option PersistentVolume
  pub kube_error_text : KubeError → String
  pub parse_ip : List ℕ → Option IpAddr
  pub f64_parse : List ℕ → Option ℕ
  pub f64_is_negative : ℕ → Bool
  pub f64_mul : ℕ → ℕ → ℕ
  pub f64_of_u128 : ℕ → ℕ
  pub f64_to_u128 : ℕ → ℕ

pub record Ctx : Type 0 where
  pub cfg : Config
  pub libs : Libs

abbrev pub default_settle_seconds : ℕ
default_settle_seconds = 90

abbrev pub default_transfer_timeout : ℕ
default_transfer_timeout = 3600

abbrev pub default_max_attempts : ℕ
default_max_attempts = 3

abbrev pub default_headroom_percent : ℕ
default_headroom_percent = 10

abbrev pub lock_propagation_seconds : ℕ
lock_propagation_seconds = 5

-- `kube::runtime::controller::Action`; the delay is in milliseconds.
pub data Action : Type 0 where
  requeue : ℕ → Action
  await_change : Action

-- `Action::requeue(Duration::from_secs(n))`
abbrev pub requeue_secs : ℕ → Action
requeue_secs n = requeue (n * 1000)

-- `format!("{e:#}")`
abbrev pub error_text : Libs → Error → String
error_text libs (kube e) = libs.kube_error_text e
error_text libs (other msg) = msg

unfoldable pub write_status : String → EvacuationStatus → M (Unit {0})
write_status name status = ask (patch_status name status)

-- The end of one round of `update_params`: a conflict goes to the next round.
abbrev pub written : M (Unit {0}) → Answer (Unit {0}) → M (Unit {0})
written again (ok _) = ret tt
written again (err (api code)) = if code == 409 then again else throw (kube (api code))
written again (err transport) = throw (kube transport)

-- One round: read, mutate, and write if something changed.
abbrev pub update_params_round :
    (ParamsSpec → ParamsSpec × Bool) → M (Unit {0}) → Option EvacuationParams → M (Unit {0})
update_params_round mutate again none =
    let (spec, changed) = mutate default_params in
    if changed then try (create_params spec) >>= written again else ret tt
update_params_round mutate again (some params) =
    let (spec, changed) = mutate params.spec in
    if changed
    then try (replace_params (record params { spec = spec })) >>= written again
    else ret tt

unfoldable pub update_params_rounds : ℕ → (ParamsSpec → ParamsSpec × Bool) → M (Unit {0})
update_params_rounds zero mutate = throw (other ("persistent conflict updating " <> params_name))
update_params_rounds (suc n) mutate =
    let again = update_params_rounds n mutate in ask get_params >>= update_params_round mutate again

unfoldable pub update_params : (ParamsSpec → ParamsSpec × Bool) → M (Unit {0})
unfolding update_params_rounds
update_params mutate = update_params_rounds 8 mutate
