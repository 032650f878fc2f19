-- ===== src/Leader/Cluster.antt =====
-- Replicas of the controller that contend for the Lease of src/leader.rs, any number of them, with
-- their reads and writes interleaved. The server refuses a write over another version.
pub mod Informed
pub mod Writes
use zfs_evacuation_controlle.Base.{
  ℕ, ◌+◌, ◌≤◌, String, Bool, true, false, not, ◌&&◌, ◌||◌, Option, none, some, eqs, ◌==◌, ◌≡◌, refl,
  sym, subst, ap, arith, if◌then◌else◌, if_elim, eqs→eq, ◌≢◌, some_inj,
}
use zfs_evacuation_controlle.Effect.{Answer, ok, err, api}
use zfs_evacuation_controlle.Leader.{
  try_acquire, attempted, leads, follows, Lease, to_write, is_expired, holder_of, renewed,
}

-- Between the read and the write: what was read, when, and what is to be written.
pub data Progress : Type 0 where
  resting : Progress
  writing : Option Lease → ℕ → Lease → Progress

pub record Cluster : Type 0 where
  pub stored : Option Lease
  pub replica : String → Progress
  pub clock : ℕ

abbrev pub with_replica : String → Progress → (String → Progress) → String → Progress
with_replica me p replicas other = if eqs other me then p else replicas other

-- A create, where none was read, is accepted if there is no lease; a replacement if the written lease
-- carries the version of the stored one, or no version (0 here), which asks for no comparison.
abbrev pub is_accepted : Option Lease → Lease → Option Lease → Bool
is_accepted none new none = true
is_accepted (some read) new (some lease) = new.version == 0 || new.version == lease.version
is_accepted _ new _ = false

-- The server's answer to the write.
abbrev pub served : Option Lease → Option Lease → Lease → Answer Lease
served read stored new = if is_accepted read new stored then ok new else err (api 409)

abbrev next_version : Option Lease → ℕ
next_version none = 1
next_version (some lease) = lease.version + 1

abbrev pub stamped : Option Lease → Lease → Option Lease
stamped stored new = some (record { version = next_version stored; spec = new.spec })

pub data Step : Cluster → Cluster → Type 0 where
  waits :
      (c : Cluster)
      → Step c (record { stored = c.stored; replica = c.replica; clock = c.clock + 1 })
  reads :
      (c : Cluster) (me : String) (new : Lease)
      → to_write me c.clock c.stored ≡ some new
      → Step c (record {
        stored = c.stored;
        replica = with_replica me (writing c.stored c.clock new) c.replica;
        clock = c.clock;
      })
  writes :
      (c : Cluster) (me : String) (read : Option Lease) (at : ℕ) (new : Lease)
      → c.replica me ≡ writing read at new
      → is_accepted read new c.stored ≡ true
      → Step c (record {
        stored = stamped c.stored new;
        replica = with_replica me resting c.replica;
        clock = c.clock;
      })
  gives_up :
      (c : Cluster) (me : String)
      → Step c (record {
        stored = c.stored;
        replica = with_replica me resting c.replica;
        clock = c.clock;
      })

-- The versions that the server gives start at 1.
abbrev pub IsVersioned : Option Lease → Type 0
IsVersioned none = Unit
IsVersioned (some lease) = 1 ≤ lease.version

pub data Reachable : Cluster → Type 0 where
  starts :
      (o : Option Lease) (now : ℕ)
      → IsVersioned o
      → Reachable (record { stored = o; replica = λ _. resting; clock = now })
  steps : {c d : Cluster} → Reachable c → Step c d → Reachable d
