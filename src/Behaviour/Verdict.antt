-- ===== src/Behaviour/Verdict.antt =====
-- src/controller/transfer.rs, `transfer_verdict`.
pub mod Exact
use zfs_evacuation_controlle.Base.{
  ℕ, ◌-◌, ◌<◌, ◌≤◌, String, Bool, true, false, not, ◌&&◌, none, some, ◌≡◌, refl, ap, subst, ◌∙◌,
  arith, eqs, map_option, ◌<>◌, ltb, ◌⊎◌, inl, inr, ◌↔◌, if◌then◌else◌, if_elim, option_elim,
}
use zfs_evacuation_controlle.Crd.Openebs.{bkp_status_done}
use zfs_evacuation_controlle.Effect.{RelayObs}
use zfs_evacuation_controlle.Controller.Transfer.Verdict.{
  TransferObs, TransferVerdict, transfer_verdict, relay_verdict, is_flowing, is_bad_status,
  complete, fail_attempt, stale_status, stale_relay, waiting_for_source, create_restore, continue,
}

abbrev pub both_done : TransferObs → Bool
both_done o = eqs o.bkp_status bkp_status_done && eqs o.rst_status bkp_status_done

-- Nothing is settled yet: not both are Done, and no failure is recorded.
pub record Unfailed (o : TransferObs) : Type 0 where
  pub undone : both_done o ≡ false
  pub unfailed : o.failure_reason ≡ none

-- Nothing reported as failed either.
pub record Unsettled (o : TransferObs) : Type 0 where
  pub undone : both_done o ≡ false
  pub unfailed : o.failure_reason ≡ none
  pub backup_good : is_bad_status o.bkp_status ≡ false
  pub restore_good : is_bad_status o.rst_status ≡ false

-- A relay of this attempt in memory, before anything is settled.
pub record Running (o : TransferObs) (m : RelayObs) : Type 0 where
  pub unsettled : Unsettled o
  pub relay : o.mem ≡ some m
  pub attempt : m.attempt ≡ o.attempt

-- No bytes flow, and the attempt has lasted longer than it may; and the opposite.
abbrev pub IsTimedOut : TransferObs → RelayObs → Type 0
IsTimedOut o m = (is_flowing m ≡ false) × (o.timeout_secs < o.elapsed_secs)

abbrev pub IsInTime : TransferObs → RelayObs → Type 0
IsInTime o m = (is_flowing m ≡ true) ⊎ (o.elapsed_secs ≤ o.timeout_secs)

-- Bytes have flowed, the last of them too long ago; and the opposite.
abbrev pub IsStalled : TransferObs → RelayObs → Type 0
IsStalled o m = (is_flowing m ≡ true) × (o.stall_secs < o.now_secs - m.last_activity)

abbrev pub IsLive : TransferObs → RelayObs → Type 0
IsLive o m = (is_flowing m ≡ false) ⊎ (o.now_secs - m.last_activity ≤ o.stall_secs)

-- What an attempt can fail of, in the order of precedence.
pub data Failing (o : TransferObs) : String → Type 0 where
  recorded : (r : String) → both_done o ≡ false → o.failure_reason ≡ some r → Failing o r
  bad_backup :
      Unfailed o
      → is_bad_status o.bkp_status ≡ true
      → Failing o ("backup reported status " <> o.bkp_status)
  bad_restore :
      Unfailed o
      → is_bad_status o.bkp_status ≡ false
      → is_bad_status o.rst_status ≡ true
      → Failing o ("restore reported status " <> o.rst_status)
  no_relay : Unsettled o → o.mem ≡ none → Failing o "controller restarted mid-transfer"
  timed_out : (m : RelayObs) → Running o m → IsTimedOut o m → Failing o "transfer timed out"
  stalled :
      (m : RelayObs)
      → Running o m
      → o.rst_exists ≡ true
      → IsStalled o m
      → Failing o "transfer stalled (no bytes)"

-- When each verdict is due.
abbrev pub Due : TransferObs → TransferVerdict → Type 0
Due o (complete bytes) = (both_done o ≡ true) × (bytes ≡ map_option (λ m. m.bytes) o.mem)
Due o (fail_attempt r) = Failing o r
Due o stale_status = (m : RelayObs) × Unsettled o × (o.mem ≡ some m) × (o.attempt < m.attempt)
Due o stale_relay = (m : RelayObs) × Unsettled o × (o.mem ≡ some m) × (m.attempt < o.attempt)
Due o waiting_for_source =
    (m : RelayObs) × Running o m
    × IsInTime o m
    × (o.rst_exists ≡ false)
    × (m.source_connected ≡ false)
Due o create_restore =
    (m : RelayObs) × Running o m
    × IsInTime o m
    × (o.rst_exists ≡ false)
    × (m.source_connected ≡ true)
Due o (continue bytes) =
    (m : RelayObs) × Running o m
    × IsInTime o m
    × (o.rst_exists ≡ true)
    × IsLive o m
    × (bytes ≡ m.bytes)

ltb→< : (a b : ℕ) → ltb a b ≡ true → a < b
ltb→< a b h = ground arith

ltb→≥ : (a b : ℕ) → ltb a b ≡ false → b ≤ a
ltb→≥ a b h = ground arith

not→false : (b : Bool) → not b ≡ true → b ≡ false
not→false b h = ground arith

in_time :
    (o : TransferObs) (m : RelayObs)
    → (not (is_flowing m) && ltb o.timeout_secs o.elapsed_secs) ≡ false
    → IsInTime o m
in_time o m h = by_flow (is_flowing m) refl h
  where
    by_flow :
        (b : Bool)
        → is_flowing m ≡ b
        → (not b && ltb o.timeout_secs o.elapsed_secs) ≡ false
        → IsInTime o m
    by_flow true e h = inl e
    by_flow false e h = inr (ltb→≥ o.timeout_secs o.elapsed_secs h)

live :
    (o : TransferObs) (m : RelayObs)
    → (is_flowing m && ltb o.stall_secs (o.now_secs - m.last_activity)) ≡ false
    → IsLive o m
live o m h = by_flow (is_flowing m) refl h
  where
    by_flow :
        (b : Bool)
        → is_flowing m ≡ b
        → (b && ltb o.stall_secs (o.now_secs - m.last_activity)) ≡ false
        → IsLive o m
    by_flow false e h = inl e
    by_flow true e h = inr (ltb→≥ o.stall_secs (o.now_secs - m.last_activity) h)

module _ (o : TransferObs) (u : Unsettled o) where
  relay-Due : (m : RelayObs) → o.mem ≡ some m → Due o (relay_verdict o m)
  unfolding relay_verdict
  relay-Due m e =
      if_elim (Due o) (ltb o.attempt m.attempt) _ _ (λ h. (m, u, e, ltb→< o.attempt m.attempt h))
        λ x.
          if_elim (Due o) (ltb m.attempt o.attempt) _ _
            (λ h. (m, u, e, ltb→< m.attempt o.attempt h))
            λ y.
              let run : Running o m = record { unsettled = u; relay = e; attempt = ground arith } in
              if_elim (Due o) (not (is_flowing m) && ltb o.timeout_secs o.elapsed_secs) _ _
                (λ h. timed_out m run (ground arith, ground arith))
                λ z.
                  let soon = in_time o m z in
                  if_elim (Due o) (not o.rst_exists) _ _
                    (λ absent.
                      let none_yet = not→false o.rst_exists absent in
                      if_elim (Due o) m.source_connected _ _ (λ h. (m, run, soon, none_yet, h))
                        (λ h. (m, run, soon, none_yet, h)))
                    λ there.
                      let yes : o.rst_exists ≡ true = ground arith in
                      if_elim (Due o)
                        (is_flowing m && ltb o.stall_secs (o.now_secs - m.last_activity)) _ _
                        (λ h. stalled m run yes (ground arith, ground arith))
                        (λ h. (m, run, soon, yes, live o m h, refl))

pub transfer_verdict-Due : (o : TransferObs) → Due o (transfer_verdict o)
unfolding transfer_verdict
transfer_verdict-Due o =
    if_elim (Due o) (both_done o) _ _ (λ h. (h, refl))
      λ undone.
        option_elim (Due o) o.failure_reason _ _
          (λ f.
            let first : Unfailed o = record { undone = undone; unfailed = f } in
            if_elim (Due o) (is_bad_status o.bkp_status) _ _ (λ h. bad_backup first h)
              λ b.
                if_elim (Due o) (is_bad_status o.rst_status) _ _ (λ h. bad_restore first b h)
                  λ r.
                    let u : Unsettled o = record {
                      undone = undone;
                      unfailed = f;
                      backup_good = b;
                      restore_good = r;
                    } in
                    option_elim (Due o) o.mem _ _ (λ e. no_relay u e) (λ m e. relay-Due o u m e))
          (λ r e. recorded r undone e)

relay_untimed :
    (o : TransferObs) (m : RelayObs) (elapsed : ℕ)
    → is_flowing m ≡ true
    → relay_verdict (record o { elapsed_secs = elapsed }) m ≡ relay_verdict o m
unfolding relay_verdict
relay_untimed o m elapsed h = rw h refl

-- While bytes arrive from a live relay, the time since the start of the attempt does not count:
-- neither the verdict nor its reason depends on it.
flowing_untimed :
    (o : TransferObs) (m : RelayObs) (elapsed : ℕ)
    → o.mem ≡ some m
    → is_flowing m ≡ true
    → transfer_verdict (record o { elapsed_secs = elapsed }) ≡ transfer_verdict o
unfolding transfer_verdict
flowing_untimed o m elapsed e h =
    ap
      (λ v.
        if both_done o then complete (map_option (λ x. x.bytes) o.mem) else elim o.failure_reason [
          | some r ↦ fail_attempt r
          | none ↦
              if is_bad_status o.bkp_status
              then fail_attempt ("backup reported status " <> o.bkp_status)
              else if is_bad_status o.rst_status
              then fail_attempt ("restore reported status " <> o.rst_status)
              else v
        ])
      same
  where
    same :
        elim o.mem [
          | none ↦ fail_attempt "controller restarted mid-transfer"
          | some x ↦ relay_verdict (record o { elapsed_secs = elapsed }) x
        ]
        ≡ elim o.mem [
          | none ↦ fail_attempt "controller restarted mid-transfer"
          | some x ↦ relay_verdict o x
        ]
    same = rw (e, relay_untimed o m elapsed h) refl
