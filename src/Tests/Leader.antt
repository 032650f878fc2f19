-- ===== src/Tests/Leader.antt =====
-- Two replicas and an expired lease of a third.
use zfs_evacuation_controlle.Base.{
  ℕ, List, [], ◌∷◌, arith, String, true, false, some, none, if◌then◌else◌, ◌≡◌, ◌≢◌, ◌≤◌, refl, eqs,
  eq→eqs,
}
use zfs_evacuation_controlle.Leader.{
  lease_duration_secs, Lease, renewed, is_expired, holder_of, to_write, Attempted, fails, leads,
  try_acquire,
}
use zfs_evacuation_controlle.Effect.{ok}
use zfs_evacuation_controlle.Start.{Environment, start}
use zfs_evacuation_controlle.Start.Order.{IsOrderly, start-IsOrderly}
use zfs_evacuation_controlle.Leader.Cluster.{
  Progress, Cluster, Reachable, Step, with_replica, is_accepted, served, stamped,
}
use zfs_evacuation_controlle.Leader.Cluster.Writes.{no_early_takeover, one_write_wins}

abbrev old_lease : Lease
old_lease = record {
  version = 7;
  spec = some (record {
    holder_identity = some "c";
    lease_duration_seconds = some 30;
    acquire_time = some 5;
    renew_time = some 60;
    lease_transitions = some 2;
  });
}

abbrev at_start : Cluster
at_start = record { stored = some old_lease; replica = λ _. Progress.resting; clock = 100 }

abbrev taking : String → Progress
taking me = Progress.writing (some old_lease) 100 (renewed me 100 old_lease)

abbrev one_reads : Cluster
one_reads = record {
  stored = some old_lease;
  replica = with_replica "a" (taking "a") at_start.replica;
  clock = 100;
}

abbrev both_read : Cluster
both_read = record {
  stored = some old_lease;
  replica = with_replica "b" (taking "b") one_reads.replica;
  clock = 100;
}

taken :
    (me : String)
    → eqs "c" me ≡ false
    → to_write me 100 (some old_lease) ≡ some (renewed me 100 old_lease)
unfolding to_write is_expired lease_duration_secs
taken me other = rw other refl

both_read-Reachable : Reachable both_read
both_read-Reachable =
    Reachable.steps
      (Reachable.steps (Reachable.starts (some old_lease) 100 (omega arith))
        (Step.reads at_start "a" (renewed "a" 100 old_lease) (taken "a" refl)))
      (Step.reads one_reads "b" (renewed "b" 100 old_lease) (taken "b" refl))

not_mine : holder_of old_lease ≢ "a"
not_mine e = let no : false ≡ true = eq→eqs "c" "a" e in cc

no_early_takeover_example : (100 ≤ 100) × (is_expired 100 old_lease ≡ true)
no_early_takeover_example =
    no_early_takeover both_read "a" (some old_lease) 100 (renewed "a" 100 old_lease) old_lease
      both_read-Reachable refl refl refl not_mine

one_write_wins_example :
    (is_accepted
        (some old_lease)
        (renewed "b" 100 old_lease)
        (stamped (some old_lease) (renewed "a" 100 old_lease))
      ≡ false)
    × (try_acquire "b" 100
          (ok (some old_lease))
          (served (some old_lease) (stamped (some old_lease) (renewed "a" 100 old_lease)))
        ≢ leads)
one_write_wins_example =
    one_write_wins both_read "b" (some old_lease) 100 (renewed "b" 100 old_lease)
      (renewed "a" 100 old_lease) both_read-Reachable refl

-- Two failed rounds, and the exit of the third.
abbrev rounds : List (Attempted × ℕ)
rounds = (fails, 110) ∷ (fails, 120) ∷ (fails, 131) ∷ []

-- A pod whose first round leads, with an address and no other setting.
abbrev environment : Environment
environment name = if eqs name "POD_IP" then some "10.0.0.7" else none

start-IsOrderly_example :
    IsOrderly 11 90 [] environment 1 true
      ((leads, 100) ∷ rounds)
      (start [] environment 1 true ((leads, 100) ∷ rounds))
start-IsOrderly_example = start-IsOrderly 11 90 [] environment 1 true ((leads, 100) ∷ rounds) (
  omega arith,
  omega arith,
  (omega arith, omega arith, (omega arith, omega arith, (omega arith, omega arith, tt))),
)
