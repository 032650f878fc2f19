-- ===== src/Leader/Cluster/Informed.antt =====
-- src/leader.rs: what a replica that is about to write has read of the Lease.
use zfs_evacuation_controlle.Base.{
  ℕ, ◌+◌, ◌≤◌, String, Option, none, some, eqs, ◌≡◌, refl, sym, subst, arith, if_elim, eqs→eq,
}
use zfs_evacuation_controlle.Leader.{Lease, to_write}
use zfs_evacuation_controlle.Leader.Cluster.{
  Progress, resting, writing, Cluster, with_replica, stamped, Step, waits, reads, writes, gives_up,
  IsVersioned, Reachable, starts, steps,
}

-- What was read is the stored lease, or an older version.
abbrev pub Known : Option Lease → Option Lease → Type 0
Known none stored = Unit
Known (some read) none = ⊥
Known (some read) (some lease) =
    (1 ≤ read.version)
    × (read.version ≤ lease.version)
    × (read.version ≡ lease.version → read ≡ lease)

abbrev pub Informed : String → Option Lease → ℕ → Progress → Type 0
Informed me stored clock resting = Unit
Informed me stored clock (writing read at new) =
    (to_write me at read ≡ some new) × ((at ≤ clock) × Known read stored)

same_lem : (o : Option Lease) → IsVersioned o → Known o o
same_lem none h = tt
same_lem (some lease) h = (h, omega arith, λ _. refl)

older_lem :
    (read stored : Option Lease) (new : Lease) → Known read stored → Known read (stamped stored new)
older_lem none stored new h = tt
older_lem (some read) none new h = elim h [ ]
older_lem (some read) (some lease) new h = let le = h.1 in (h.0, omega arith, λ e. absurd le e)
  where
    absurd :
        read.version ≤ lease.version
        → read.version ≡ lease.version + 1
        → read ≡ record { version = lease.version + 1; spec = new.spec }
    absurd le e = let no : ⊥ = omega arith in elim no [ ]

stamped-IsVersioned : (o : Option Lease) (new : Lease) → IsVersioned (stamped o new)
stamped-IsVersioned none new = omega arith
stamped-IsVersioned (some lease) new = omega arith

module _ (me : String) (clock : ℕ) where
  waits_lem :
      (o : Option Lease) (p : Progress) → Informed me o clock p → Informed me o (clock + 1) p
  waits_lem o resting h = tt
  waits_lem o (writing read at new) h = let le = h.1.0 in (h.0, (omega arith, h.1.1))

  stamped_lem :
      (o : Option Lease) (l : Lease) (p : Progress)
      → Informed me o clock p
      → Informed me (stamped o l) clock p
  stamped_lem o l resting h = tt
  stamped_lem o l (writing read at new) h = (h.0, (h.1.0, older_lem read o l h.1.1))

abbrev AllInformed : Cluster → Type 0
AllInformed c = IsVersioned c.stored × ((k : String) → Informed k c.stored c.clock (c.replica k))

replaced :
    (me k : String) (p : Progress) (replicas : String → Progress) (P : Progress → Type 0)
    → (k ≡ me → P p)
    → P (replicas k)
    → P (with_replica me p replicas k)
replaced me k p replicas P mine other =
    if_elim P (eqs k me) _ _ (λ h. mine (eqs→eq k me h)) (λ _. other)

preserves : {c d : Cluster} → Step c d → AllInformed c → AllInformed d
preserves (waits c) h = (h.0, λ k. waits_lem k c.clock c.stored (c.replica k) (h.1 k))
preserves (reads c me new e) h = (
  h.0,
  λ k.
      replaced me k _ c.replica (Informed k c.stored c.clock)
        (λ same.
          subst (λ x. Informed x c.stored c.clock (writing c.stored c.clock new)) (sym same)
            (e, (omega arith, same_lem c.stored h.0)))
        (h.1 k),
)
preserves (writes c me read at new e a) h = (
  stamped-IsVersioned c.stored new,
  λ k.
      replaced me k _ c.replica (Informed k (stamped c.stored new) c.clock) (λ _. tt)
        (stamped_lem k c.clock c.stored new (c.replica k) (h.1 k)),
)
preserves (gives_up c me) h =
    (h.0, λ k. replaced me k _ c.replica (Informed k c.stored c.clock) (λ _. tt) (h.1 k))

Reachable-Informed : (c : Cluster) → Reachable c → AllInformed c
Reachable-Informed _ (starts o now h) = (h, λ k. tt)
Reachable-Informed _ (steps {c} r step) = preserves step (Reachable-Informed c r)

pub Informed-replica :
    (c : Cluster) (me : String) (read : Option Lease) (at : ℕ) (new : Lease)
    → Reachable c
    → c.replica me ≡ writing read at new
    → Informed me c.stored c.clock (writing read at new)
Informed-replica c me read at new r e =
    subst (Informed me c.stored c.clock) e ((Reachable-Informed c r).1 me)
