-- ===== src/Tests/Unwinding.antt =====
-- An abort, and a cleaning, with everything on record.
use zfs_evacuation_controlle.Base.{false, none, ◌≡◌, refl}
use zfs_evacuation_controlle.Crd.Evacuation.{Phase}
use zfs_evacuation_controlle.Controller.Abort.{run}
use zfs_evacuation_controlle.Behaviour.Unwinding.{volume_gone, snapshot_gone, Watched, is_unlocked}
use zfs_evacuation_controlle.Behaviour.Unwinding.Run.{run-Watched}
use zfs_evacuation_controlle.Controller.Phases.{cleaning_up}
use zfs_evacuation_controlle.Behaviour.Completion.Final.{cleaning_up-Watched}
use zfs_evacuation_controlle.Tests.Samples.{
  evacuation, claim, target, transfer, params, at_phase, committed_at,
}

claim_locked : is_unlocked claim params ≡ false
claim_locked = refl

run-Watched_example :
    Watched
      (evacuation none)
      (volume_gone target transfer)
      false
      (run (evacuation none) (at_phase Phase.aborting))
run-Watched_example =
    run-Watched (evacuation none) (at_phase Phase.aborting) (volume_gone target transfer)
      (refl, refl)

cleaning_up-Watched_example :
    Watched
      (evacuation none)
      (snapshot_gone target transfer)
      false
      (cleaning_up (evacuation none) (committed_at Phase.cleaning_up))
cleaning_up-Watched_example =
    cleaning_up-Watched (evacuation none) (committed_at Phase.cleaning_up)
      (snapshot_gone target transfer) refl (refl, refl)
