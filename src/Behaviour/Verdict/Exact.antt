-- ===== src/Behaviour/Verdict/Exact.antt =====
-- src/controller/transfer.rs, `transfer_verdict`: each verdict is reached exactly when it is due.
use zfs_evacuation_controlle.Base.{
  ◌-◌, ◌<◌, String, true, false, not, ◌&&◌, some, ◌≡◌, refl, subst, ◌∙◌, arith, ltb, inl, inr, ◌↔◌,
  if◌then◌else◌,
}
use zfs_evacuation_controlle.Effect.{RelayObs}
use zfs_evacuation_controlle.Controller.Transfer.Verdict.{
  TransferObs, TransferVerdict, transfer_verdict, relay_verdict, is_flowing, complete, fail_attempt,
  stale_status, stale_relay, waiting_for_source, create_restore, continue,
}
use zfs_evacuation_controlle.Behaviour.Verdict.{
  Unsettled, IsTimedOut, IsInTime, IsStalled, IsLive, Failing, recorded, bad_backup, bad_restore,
  no_relay, timed_out, stalled, Due, transfer_verdict-Due,
}

in_time_lem :
    (o : TransferObs) (m : RelayObs)
    → IsInTime o m
    → (not (is_flowing m) && ltb o.timeout_secs o.elapsed_secs) ≡ false
in_time_lem o m (inl e) = rw e refl
in_time_lem o m (inr h) = ground arith

live_lem :
    (o : TransferObs) (m : RelayObs)
    → IsLive o m
    → (is_flowing m && ltb o.stall_secs (o.now_secs - m.last_activity)) ≡ false
live_lem o m (inl e) = rw e refl
live_lem o m (inr h) = ground arith

-- The verdict of an unsettled attempt is that of its relay.
unsettled_lem :
    (o : TransferObs) (m : RelayObs)
    → Unsettled o
    → o.mem ≡ some m
    → transfer_verdict o ≡ relay_verdict o m
unfolding transfer_verdict
unsettled_lem o m u e = rw (u.undone, u.unfailed, u.backup_good, u.restore_good, e) refl

module _ (o : TransferObs) (m : RelayObs) where
  stale_status_lem : o.attempt < m.attempt → relay_verdict o m ≡ stale_status
  unfolding relay_verdict
  stale_status_lem h = ground arith

  stale_relay_lem : m.attempt < o.attempt → relay_verdict o m ≡ stale_relay
  unfolding relay_verdict
  stale_relay_lem h = ground arith

  module _ (same : m.attempt ≡ o.attempt) where
    earlier : ltb o.attempt m.attempt ≡ false
    earlier = ground arith

    later : ltb m.attempt o.attempt ≡ false
    later = ground arith

    timed_out_lem : IsTimedOut o m → relay_verdict o m ≡ fail_attempt "transfer timed out"
    unfolding relay_verdict
    timed_out_lem h =
        let long : ltb o.timeout_secs o.elapsed_secs ≡ true = let l = h.1 in ground arith in
        rw (earlier, later, h.0, long) refl

    module _ (soon : IsInTime o m) where
      absent_lem :
          o.rst_exists ≡ false
          → relay_verdict o m ≡ (if m.source_connected then create_restore else waiting_for_source)
      unfolding relay_verdict
      absent_lem h = rw (earlier, later, in_time_lem o m soon, h) refl

      live_verdict_lem : o.rst_exists ≡ true → IsLive o m → relay_verdict o m ≡ continue m.bytes
      unfolding relay_verdict
      live_verdict_lem h l = rw (earlier, later, in_time_lem o m soon, h, live_lem o m l) refl

    stalled_lem :
        o.rst_exists ≡ true
        → IsStalled o m
        → relay_verdict o m ≡ fail_attempt "transfer stalled (no bytes)"
    unfolding relay_verdict
    stalled_lem h s =
        let idle : ltb o.stall_secs (o.now_secs - m.last_activity) ≡ true =
          let l = s.1 in ground arith in
        rw (earlier, later, s.0, h, idle) refl

failing_lem : (o : TransferObs) (r : String) → Failing o r → transfer_verdict o ≡ fail_attempt r
unfolding transfer_verdict
failing_lem o _ (recorded r undone e) = rw (undone, e) refl
failing_lem o _ (bad_backup f h) = rw (f.undone, f.unfailed, h) refl
failing_lem o _ (bad_restore f b h) = rw (f.undone, f.unfailed, b, h) refl
failing_lem o _ (no_relay u e) = rw (u.undone, u.unfailed, u.backup_good, u.restore_good, e) refl
failing_lem o _ (timed_out m run h) =
    unsettled_lem o m run.unsettled run.relay ∙ timed_out_lem o m run.attempt h
failing_lem o _ (stalled m run there h) =
    unsettled_lem o m run.unsettled run.relay ∙ stalled_lem o m run.attempt there h

-- What is due is the verdict: no two verdicts are due at once.
Due-unique : (o : TransferObs) (v : TransferVerdict) → Due o v → transfer_verdict o ≡ v
unfolding transfer_verdict
Due-unique o (complete bytes) (done, e) = rw (done, e) refl
Due-unique o (fail_attempt r) f = failing_lem o r f
Due-unique o stale_status (m, u, e, h) = unsettled_lem o m u e ∙ stale_status_lem o m h
Due-unique o stale_relay (m, u, e, h) = unsettled_lem o m u e ∙ stale_relay_lem o m h
Due-unique o waiting_for_source (m, run, soon, absent, h) =
    unsettled_lem o m run.unsettled run.relay ∙ absent_lem o m run.attempt soon absent ∙ rw h refl
Due-unique o create_restore (m, run, soon, absent, h) =
    unsettled_lem o m run.unsettled run.relay ∙ absent_lem o m run.attempt soon absent ∙ rw h refl
Due-unique o (continue bytes) (m, run, soon, there, l, e) =
    unsettled_lem o m run.unsettled run.relay
    ∙ live_verdict_lem o m run.attempt soon there l
    ∙ rw e refl

-- A verdict is reached exactly when it is due: `Complete`, with the bytes of the relay in memory,
-- when backup and restore are both Done, whatever else holds; else a failure, in this order, for a
-- recorded reason, a bad backup, a bad restore, no relay in memory, a time-out without flowing
-- bytes, or a stall with the restore there; a stale status or relay when nothing is reported and
-- the relay's attempt is later or earlier; waiting or restoring when the relay is of this attempt
-- and in time, and there is no restore yet, as the source is connected or not; and continuing when
-- the restore is there and no stall.
pub transfer_verdict_iff :
    (o : TransferObs) (v : TransferVerdict) → (transfer_verdict o ≡ v) ↔ Due o v
transfer_verdict_iff o v = (λ e. subst (Due o) e (transfer_verdict-Due o), Due-unique o v)
