-- ===== src/Controller/Transfer/Verdict.antt =====
-- src/controller/transfer.rs, `transfer_verdict`: what an observed attempt calls for.
use zfs_evacuation_controlle.Base.{
  ℕ, ◌-◌, String, Bool, not, ◌&&◌, ◌||◌, Option, none, some, eqs, map_option, ltb, ◌<>◌,
  if◌then◌else◌,
}
use zfs_evacuation_controlle.Crd.Openebs.{bkp_status_done, bkp_status_failed, bkp_status_invalid}
use zfs_evacuation_controlle.Effect.{RelayObs}

pub record TransferObs : Type 0 where
  pub attempt : ℕ
  pub failure_reason : Option String
  pub bkp_status : String
  pub rst_status : String
  pub rst_exists : Bool
  pub mem : Option RelayObs
  pub elapsed_secs : ℕ
  pub now_secs : ℕ
  pub timeout_secs : ℕ
  pub stall_secs : ℕ

pub data TransferVerdict : Type 0 where
  complete : Option ℕ → TransferVerdict
  fail_attempt : String → TransferVerdict
  stale_status stale_relay waiting_for_source create_restore : TransferVerdict
  continue : ℕ → TransferVerdict

-- A stream that delivers bytes to the target.
abbrev pub is_flowing : RelayObs → Bool
is_flowing m = not m.task_finished && ltb 0 m.bytes

abbrev pub is_bad_status : String → Bool
is_bad_status s = eqs s bkp_status_failed || eqs s bkp_status_invalid

-- The part that needs a live relay.
unfoldable pub relay_verdict : TransferObs → RelayObs → TransferVerdict
relay_verdict o m =
    if ltb o.attempt m.attempt
    then stale_status
    else if ltb m.attempt o.attempt
    then stale_relay
    else if not (is_flowing m) && ltb o.timeout_secs o.elapsed_secs
    then fail_attempt "transfer timed out"
    else if not o.rst_exists
    then (if m.source_connected then create_restore else waiting_for_source)
    else if is_flowing m && ltb o.stall_secs (o.now_secs - m.last_activity)
    then fail_attempt "transfer stalled (no bytes)"
    else continue m.bytes

unfoldable pub transfer_verdict : TransferObs → TransferVerdict
unfolding relay_verdict
transfer_verdict o =
    if eqs o.bkp_status bkp_status_done && eqs o.rst_status bkp_status_done
    then complete (map_option (λ m. m.bytes) o.mem)
    else elim o.failure_reason [
      | some r ↦ fail_attempt r
      | none ↦
          if is_bad_status o.bkp_status
          then fail_attempt ("backup reported status " <> o.bkp_status)
          else if is_bad_status o.rst_status
          then fail_attempt ("restore reported status " <> o.rst_status)
          else elim o.mem [
            | none ↦ fail_attempt "controller restarted mid-transfer"
            | some m ↦ relay_verdict o m
          ]
    ]
