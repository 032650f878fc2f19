-- ===== src/Leader/Cluster/Writes.antt =====
-- src/leader.rs: which writes of the Lease are accepted.
use zfs_evacuation_controlle.Base.{
  ℕ, ◌≤◌, String, Bool, true, false, not, ◌&&◌, Option, none, some, eqs, ◌≡◌, refl, sym, subst, ap,
  arith, if◌then◌else◌, eqs→eq, ◌≢◌, some_inj,
}
use zfs_evacuation_controlle.Effect.{ok, err, api}
use zfs_evacuation_controlle.Leader.{
  try_acquire, attempted, leads, follows, Lease, to_write, is_expired, holder_of, renewed,
}
use zfs_evacuation_controlle.Leader.Cluster.{
  writing, Cluster, is_accepted, served, stamped, Reachable,
}
use zfs_evacuation_controlle.Leader.Cluster.Informed.{Known, Informed-replica}

-- A lease that another holds is taken only when it is expired.
taken_lem :
    (me : String) (at : ℕ) (lease new : Lease)
    → to_write me at (some lease) ≡ some new
    → holder_of lease ≢ me
    → is_expired at lease ≡ true
unfolding to_write
taken_lem me at lease new e other = by_tests (eqs (holder_of lease) me) (is_expired at lease) refl e
  where
    by_tests :
        (b x : Bool)
        → eqs (holder_of lease) me ≡ b
        → (if not b && not x then none else some (renewed me at lease)) ≡ some new
        → x ≡ true
    by_tests true x h e' = elim (other (eqs→eq (holder_of lease) me h)) [ ]
    by_tests false true h e' = refl
    by_tests false false h e' = cc

-- A replacement carries the version of the lease that was read.
abbrev Carries : Option Lease → Lease → Type 0
Carries none new = Unit
Carries (some read) new = new.version ≡ read.version

to_write-Carries :
    (me : String) (at : ℕ) (read : Option Lease) (new : Lease)
    → to_write me at read ≡ some new
    → Carries read new
unfolding to_write
to_write-Carries me at none new e = tt
to_write-Carries me at (some lease) new e =
    by_test (not (eqs (holder_of lease) me) && not (is_expired at lease)) e
  where
    by_test :
        (b : Bool)
        → (if b then none else some (renewed me at lease)) ≡ some new
        → new.version ≡ lease.version
    by_test true e' = cc
    by_test false e' = ap (λ l. l.version) (sym (some_inj _ _ e'))

stored_is_read :
    (read : Option Lease) (new lease : Lease)
    → is_accepted read new (some lease) ≡ true
    → Carries read new
    → Known read (some lease)
    → read ≡ some lease
stored_is_read none new lease a v h = cc
stored_is_read (some read) new lease a v h =
    let one = h.0 in let same : read.version ≡ lease.version = ground arith in ap some (h.2 same)

-- In every cluster that replicas can reach, when a write is accepted over a lease that another
-- holds, that very lease was expired at the time at which the writer had read it.
pub no_early_takeover :
    (c : Cluster) (me : String) (read : Option Lease) (at : ℕ) (new lease : Lease)
    → Reachable c
    → c.replica me ≡ writing read at new
    → is_accepted read new c.stored ≡ true
    → c.stored ≡ some lease
    → holder_of lease ≢ me
    → (at ≤ c.clock) × (is_expired at lease ≡ true)
no_early_takeover c me read at new lease r e a s other =
    let i = Informed-replica c me read at new r e in
    let same =
      stored_is_read read new lease (subst (λ o. is_accepted read new o ≡ true) s a)
        (to_write-Carries me at read new i.0) (subst (Known read) s i.1.1) in
    (i.1.0, taken_lem me at lease new (subst (λ o. to_write me at o ≡ some new) same i.0) other)

overtaken :
    (read stored : Option Lease) (mine accepted : Lease)
    → Known read stored
    → Carries read mine
    → is_accepted read mine (stamped stored accepted) ≡ false
overtaken none none mine accepted h v = refl
overtaken none (some lease) mine accepted h v = refl
overtaken (some read) none mine accepted h v = elim h [ ]
overtaken (some read) (some lease) mine accepted h v = let one = h.0 in let le = h.1 in ground arith

-- Where the write is answered with a conflict, the attempt does not lead.
conflict_lem : (me : String) (read : Option Lease) → attempted me read (err (api 409)) ≢ leads
unfolding attempted
conflict_lem me none = λ h. cc
conflict_lem me (some lease) = ground arith

refused_lem :
    (me : String) (at : ℕ) (read stored : Option Lease) (new : Lease)
    → to_write me at read ≡ some new
    → is_accepted read new stored ≡ false
    → try_acquire me at (ok read) (served read stored) ≡ attempted me read (err (api 409))
unfolding try_acquire
refused_lem me at read stored new e a =
    subst
      (λ w.
        elim w [ none ↦ follows | some n ↦ attempted me read (served read stored n) ]
        ≡ attempted me read (err (api 409)))
      (sym e) (rw a refl)

-- In every cluster that replicas can reach, once a write has replaced or created the lease, no write
-- that was under way before it is accepted by the version it carries, and the attempt whose write the
-- server so answers does not end with its replica leading.
pub one_write_wins :
    (c : Cluster) (me : String) (read : Option Lease) (at : ℕ) (new accepted : Lease)
    → Reachable c
    → c.replica me ≡ writing read at new
    → (is_accepted read new (stamped c.stored accepted) ≡ false)
      × (try_acquire me at (ok read) (served read (stamped c.stored accepted)) ≢ leads)
one_write_wins c me read at new accepted r e =
    let i = Informed-replica c me read at new r e in
    let late = overtaken read c.stored new accepted i.1.1 (to_write-Carries me at read new i.0) in
    let refused = refused_lem me at read (stamped c.stored accepted) new i.0 late in
    (late, subst (λ a. a ≢ leads) (sym refused) (conflict_lem me read))
