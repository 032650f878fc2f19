-- ===== src/Behaviour/Succession/Writes.antt =====
-- src/controller/transfer.rs, `transferring`: the writes of the status, each from what has been seen.
use zfs_evacuation_controlle.Base.{
  ℕ, ◌+◌, ◌%◌, ◌^◌, String, Bool, true, false, not, Option, none, some, List, ◌≡◌, refl, sym, subst,
  arith, eqs, unwrap_or, and_then, is_some_and, leb, Bool-cases, inl, inr, some_inj, ◌∙◌,
  if◌then◌else◌, ◌<>◌, show,
}
use zfs_evacuation_controlle.Crd.Openebs.{ZfsVolume, ZfsBackup, ZfsRestore, bkp_status_done}
use zfs_evacuation_controlle.Crd.Evacuation.{
  Evacuation, EvacuationStatus, TransferStatus, SourceInfo, Phase,
}
use zfs_evacuation_controlle.Effect.{
  ◌>>=◌, Answer, ok, err, IpNet, Safe, Safe-bind, Safe-if, Safe-option, Safe-require, Safe-unnoted,
  IsUnnoted-require, IsUnnoted-lift, Outcome, done, raised,
}
use zfs_evacuation_controlle.Controller.Context.{Ctx, write_status, default_max_attempts}
use zfs_evacuation_controlle.Controller.Steps.{advance, wait, absent_or_there}
use zfs_evacuation_controlle.Controller.Transfer.{
  drop_relay, launch, already_running, start_attempt, create_restore, with_failure, give_up,
  retry_or_fail, with_bytes, act_on, elapsed_of, observe, transferring, same_bytes, report_progress,
}
use zfs_evacuation_controlle.Controller.Transfer.Verdict.{
  TransferObs, TransferVerdict, transfer_verdict, complete, fail_attempt, stale_status, stale_relay,
  waiting_for_source, continue,
}
use zfs_evacuation_controlle.Behaviour.Verdict.{Due, transfer_verdict-Due}
use zfs_evacuation_controlle.Behaviour.Succession.{
  finished, Seen, unseen, of_backup, of_restore, MayWrite, completes, gives_up, retries, goes_on,
  attempt_watch, Anyway, Quiet, Watched, node_by_id-Quiet, relay_peers-Quiet, BothGone,
  cleanup-Safe, after,
}

module _ (evac : Evacuation) (t : TransferStatus) (max_attempts : ℕ) where
  -- The writes of the status, each from what has been seen.
  module _ (ctx : Ctx) (st : EvacuationStatus) (at : st.phase ≡ Phase.transferring) where
    launch-Watched :
        (s : Seen) (attempt : ℕ) (source : SourceInfo) (src dst : List IpNet)
        → ((next : TransferStatus) (msg : String)
            → next.attempt ≡ attempt
            → MayWrite t max_attempts s (record st { transfer = some next; message = some msg }))
        → Watched evac t max_attempts s (launch ctx evac.metadata.name st attempt source src dst)
    unfolding launch write_status
    launch-Watched s attempt source src dst may = λ spawned.
        Safe-require (attempt_watch evac t max_attempts) (Anyway evac t max_attempts) s (λ _. tt)
          spawned _ _
          λ ports _ _ random now.
            (may _ _ refl, elim [ ok _ ↦ (tt, λ r. ground arith) | err e ↦ tt ])

    start_attempt-Watched :
        (s : Seen) (attempt : ℕ)
        → ((next : TransferStatus) (msg : String)
            → next.attempt ≡ attempt
            → MayWrite t max_attempts s (record st { transfer = some next; message = some msg }))
        → Watched evac t max_attempts s (start_attempt ctx evac st attempt)
    unfolding start_attempt
    start_attempt-Watched s attempt may =
        Safe-require (attempt_watch evac t max_attempts) (Anyway evac t max_attempts) s (λ _. tt)
          st.source _ _
          λ source _.
            Safe-require (attempt_watch evac t max_attempts) (Anyway evac t max_attempts) s
              (λ _. tt) st.target _ _
              λ target _ existing.
                Safe-if (attempt_watch evac t max_attempts) (Anyway evac t max_attempts) s
                  (already_running attempt existing) _ _ (λ _. tt)
                  λ _.
                    after evac t max_attempts s _ _
                      (node_by_id-Quiet evac t max_attempts s source.node_id)
                      λ src.
                        Safe-require (attempt_watch evac t max_attempts)
                          (Anyway evac t max_attempts) s (λ _. tt) src _ _
                          λ src_node _.
                            after evac t max_attempts s _ _
                              (node_by_id-Quiet evac t max_attempts s target.node_id)
                              λ dst.
                                Safe-require (attempt_watch evac t max_attempts)
                                  (Anyway evac t max_attempts) s (λ _. tt) dst _ _
                                  λ dst_node _.
                                    after evac t max_attempts s _ _
                                      (relay_peers-Quiet evac t max_attempts s ctx src_node)
                                      λ src_peers.
                                        after evac t max_attempts s _ _
                                          (relay_peers-Quiet evac t max_attempts s ctx dst_node)
                                          λ dst_peers.
                                            launch-Watched s attempt source src_peers dst_peers may

  module _ (ctx : Ctx) (st : EvacuationStatus) (at : st.phase ≡ Phase.transferring)
      (known : st.transfer ≡ some t) where
    wait-Watched :
        (s : Seen) (st' : EvacuationStatus) (msg : String) (secs : ℕ)
        → MayWrite t max_attempts s (record st' { message = some msg })
        → Watched evac t max_attempts s (wait evac.metadata.name st' msg secs)
    unfolding wait write_status
    wait-Watched s st' msg secs may = elim (Bool-cases (is_some_and (λ m. eqs m msg) st'.message)) [
      | inl old ↦ rw old tt
      | inr new ↦ rw new (may, λ r. ground arith)
    ]

    failed_transfer :
        (reason : String)
        → (with_failure reason st).transfer ≡ some (record t { failure_reason = some reason })
    failed_transfer reason = rw known refl

    give_up-Watched :
        (s : Seen) (reason : String)
        → BothGone evac t max_attempts s (done true)
        → leb max_attempts t.attempt ≡ true
        → Watched evac t max_attempts s
            (give_up evac.metadata.name (with_failure reason st) t reason)
    unfolding give_up write_status
    give_up-Watched s reason gone last =
        (gives_up refl gone.0 gone.1 (ground arith), λ r. ground arith)

    retry_or_fail-Watched :
        (s : Seen) (reason : String)
        → Watched evac t max_attempts s (retry_or_fail ctx evac st t max_attempts reason)
    unfolding retry_or_fail drop_relay
    retry_or_fail-Watched s reason = λ dropped.
        Safe-bind (attempt_watch evac t max_attempts) (BothGone evac t max_attempts)
          (Anyway evac t max_attempts) s _ _
          (cleanup-Safe evac t max_attempts s (with_failure reason st)) onward (λ _ _ _. tt)
      where
        onward :
            (s' : Seen) (gone : Bool)
            → BothGone evac t max_attempts s' (done gone)
            → Watched evac t max_attempts s' (
                if not gone
                then wait evac.metadata.name
                    (with_failure reason st)
                    ("attempt " <> show t.attempt <> " failed (" <> reason <> "); cleaning up")
                    10
                else if leb max_attempts t.attempt
                then give_up evac.metadata.name (with_failure reason st) t reason
                else start_attempt ctx evac (with_failure reason st) ((t.attempt + 1) % 2 ^ 32))
        onward s' false h =
            wait-Watched s' (with_failure reason st) _ 10
              (goes_on (record t { failure_reason = some reason }) at (failed_transfer reason) refl)
        onward s' true h =
            Safe-if (attempt_watch evac t max_attempts) (Anyway evac t max_attempts) s'
              (leb max_attempts t.attempt) _ _ (λ last. give_up-Watched s' reason h last)
              (λ more.
                start_attempt-Watched ctx (with_failure reason st) at s' ((t.attempt + 1) % 2 ^ 32)
                  (λ next msg e. retries next at refl e h.0 h.1 (ground arith)))

    create_restore-Quiet :
        (s : Seen) (port : ℕ)
        → Quiet evac t max_attempts s (create_restore ctx st evac.metadata.name t.attempt port)
    unfolding create_restore
    create_restore-Quiet s port =
        IsUnnoted-require (attempt_watch evac t max_attempts) s st.source _ _ λ source.
          IsUnnoted-require (attempt_watch evac t max_attempts) s st.target _ _ λ target. (
            tt,
            λ r. (
              kept r,
              IsUnnoted-lift (attempt_watch evac t max_attempts) s r _ λ found.
                  IsUnnoted-require (attempt_watch evac t max_attempts) s found _ _
                    λ zv. (tt, λ x. (refl, created x)),
            ),
          )
      where
        kept : (r : Answer (Option ZfsVolume)) → s ≡ s
        kept r = refl

        created : (x : Answer (Unit {0})) → Quiet evac t max_attempts s (absent_or_there x)
        created x = ground arith

    report-Watched :
        (s : Seen) (bytes : ℕ)
        → Watched evac t max_attempts s (report_progress evac.metadata.name st bytes)
    unfolding report_progress write_status
    report-Watched s bytes = (
      goes_on (record t { bytes_relayed = some bytes }) at (rw known refl) refl,
      λ r. ground arith,
    )

    complete-Watched :
        (s : Seen) (st' : EvacuationStatus)
        → s.backup ≡ finished
        → s.restore ≡ finished
        → Watched evac t max_attempts s (advance evac.metadata.name st' Phase.adopting)
    unfolding advance write_status
    complete-Watched s st' b r = (completes refl b r, λ x. ground arith)

    -- A verdict that the attempt is complete comes of reads that show both resources as done.
    act_on-Watched :
        (s : Seen) (v : TransferVerdict)
        → ((bytes : Option ℕ) → v ≡ complete bytes → (s.backup ≡ finished) × (s.restore ≡ finished))
        → Watched evac t max_attempts s (act_on ctx evac st t max_attempts v)
    unfolding act_on drop_relay
    act_on-Watched s (complete none) h =
        let both = h none refl in λ dropped. complete-Watched s st both.0 both.1
    act_on-Watched s (complete (some bytes)) h =
        let both = h (some bytes) refl in
        λ dropped. complete-Watched s (with_bytes bytes st) both.0 both.1
    act_on-Watched s (fail_attempt reason) h = retry_or_fail-Watched s reason
    act_on-Watched s stale_status h = tt
    act_on-Watched s stale_relay h = λ dropped. tt
    act_on-Watched s waiting_for_source h = wait-Watched s st _ 2 (goes_on t at known refl)
    act_on-Watched s TransferVerdict.create_restore h =
        after evac t max_attempts s _ _ (create_restore-Quiet s _) (λ _. tt)
    act_on-Watched s (continue bytes) h =
        Safe-if (attempt_watch evac t max_attempts) (Anyway evac t max_attempts) s
          (same_bytes bytes t.bytes_relayed) _ _ (λ _. tt) (λ _. report-Watched s bytes)

  -- What is observed was read.
  abbrev Observed : Seen → Outcome TransferObs → Type 0
  Observed s (done o) =
      (eqs o.bkp_status bkp_status_done ≡ true → s.backup ≡ finished)
      × (eqs o.rst_status bkp_status_done ≡ true → s.restore ≡ finished)
  Observed s (raised e) = Unit

  backup_finished :
      (b : Option ZfsBackup)
      → eqs (unwrap_or "" (and_then b (λ x. x.status))) bkp_status_done ≡ true
      → of_backup b ≡ finished
  backup_finished none h = cc
  backup_finished (some b) h = rw h refl

  restore_finished :
      (r : Option ZfsRestore)
      → eqs (unwrap_or "" (and_then r (λ x. x.status))) bkp_status_done ≡ true
      → of_restore r ≡ finished
  restore_finished none h = cc
  restore_finished (some r) h = rw h refl

  elapsed_of-Quiet :
      (s : Seen) (started : Option String) → Quiet evac t max_attempts s (elapsed_of started)
  unfolding elapsed_of
  elapsed_of-Quiet s none = tt
  elapsed_of-Quiet s (some started) = λ r. tt

  observe-Safe :
      (ctx : Ctx) (s : Seen)
      → Safe (attempt_watch evac t max_attempts) Observed s (observe ctx evac t)
  unfolding observe
  observe-Safe ctx s = (
    refl,
    elim [
      | ok bkp ↦ (
        refl,
        elim [
          | ok rst ↦ λ mem.
              Safe-unnoted (attempt_watch evac t max_attempts)
                (record { backup = of_backup bkp; restore = of_restore rst }) Observed _ _
                (elapsed_of-Quiet _ t.started_at)
                (λ elapsed now. (backup_finished bkp, restore_finished rst)) (λ _. tt)
          | err e ↦ tt
        ],
      )
      | err e ↦ tt
    ],
  )

  -- A verdict that the attempt is complete comes of what was observed.
  verdict_lem :
      (s : Seen) (o : TransferObs)
      → Observed s (done o)
      → (v : TransferVerdict) → Due o v
      → (bytes : Option ℕ) → v ≡ complete bytes
      → (s.backup ≡ finished) × (s.restore ≡ finished)
  verdict_lem s o h v due bytes e =
      let at : Due o (complete bytes) = subst (Due o) e due in
      (h.0 (ground arith), h.1 (ground arith))

-- From a recorded attempt in Transferring, the status is written only so: to Adopting when the
-- attempt's backup and restore were both just read as done; to Aborting when both were just read
-- as absent and the attempts are used up; with the next attempt when both were just read as absent
-- and attempts are left; or in Transferring with the same attempt.
pub transferring-Watched :
    (ctx : Ctx) (evac : Evacuation) (st : EvacuationStatus) (t : TransferStatus)
    → st.phase ≡ Phase.transferring
    → st.transfer ≡ some t
    → Watched evac t
        (unwrap_or default_max_attempts evac.spec.max_attempts)
        unseen
        (transferring ctx evac st)
unfolding transferring
transferring-Watched ctx evac st t at known =
    Safe-option (attempt_watch evac t limit) (Anyway evac t limit) unseen st.transfer _ _ (λ e. cc)
      (λ t' e.
        subst
          (λ x.
            Watched evac t limit unseen
              (observe ctx evac x >>= λ obs. act_on ctx evac st x limit (transfer_verdict obs)))
          (some_inj t t' (sym known ∙ e)) judged)
  where
    limit : ℕ
    limit = unwrap_or default_max_attempts evac.spec.max_attempts

    judged :
        Watched evac t limit unseen
          (observe ctx evac t >>= λ obs. act_on ctx evac st t limit (transfer_verdict obs))
    judged =
        Safe-bind (attempt_watch evac t limit) (Observed evac t limit) (Anyway evac t limit) unseen
          _ _ (observe-Safe evac t limit ctx unseen)
          (λ s obs h.
            act_on-Watched evac t limit ctx st at known s (transfer_verdict obs)
              (verdict_lem evac t limit s obs h (transfer_verdict obs) (transfer_verdict-Due obs)))
          (λ _ _ _. tt)
