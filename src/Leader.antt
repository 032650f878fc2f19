-- ===== src/Leader.antt =====
-- src/leader.rs: the Lease. Times are seconds; durations are not negative, as the API server requires,
-- so that a renewal in the future, whose age the source has as a negative number, is not expired. The
-- source reads its clock up to three times in one `try_acquire`; here the readings are one.
pub mod Cluster
pub mod Fencing
use zfs_evacuation_controlle.Base.{
  ℕ, ◌+◌, ◌-◌, ◌%◌, ◌^◌, String, Bool, true, not, ◌&&◌, Option, none, some, List, [], ◌∷◌, eqs, ltb,
  ◌==◌, unwrap_or, if◌then◌else◌,
}
use zfs_evacuation_controlle.Effect.{Answer, ok, err, api, transport}

unfoldable pub lease_duration_secs : ℕ
lease_duration_secs = 30

pub record LeaseSpec : Type 0 where
  pub holder_identity : Option String
  pub lease_duration_seconds : Option ℕ
  pub acquire_time : Option ℕ
  pub renew_time : Option ℕ
  pub lease_transitions : Option ℕ

-- `version`: metadata.resourceVersion, which the server sets.
pub record Lease : Type 0 where
  pub version : ℕ
  pub spec : Option LeaseSpec

abbrev empty_spec : LeaseSpec
empty_spec = record {
  holder_identity = none;
  lease_duration_seconds = none;
  acquire_time = none;
  renew_time = none;
  lease_transitions = none;
}

abbrev pub spec_of : Lease → LeaseSpec
spec_of lease = unwrap_or empty_spec lease.spec

-- The text of the holder; empty where there is none.
abbrev pub holder_of : Lease → String
holder_of lease = unwrap_or "" (spec_of lease).holder_identity

abbrev is_past : LeaseSpec → ℕ → Option ℕ → Bool
is_past spec now none = true
is_past spec now (some renewed) =
    ltb (unwrap_or lease_duration_secs spec.lease_duration_seconds) (now - renewed)

unfoldable pub is_expired : ℕ → Lease → Bool
is_expired now lease = is_past (spec_of lease) now (spec_of lease).renew_time

abbrev new_lease : String → ℕ → Lease
new_lease me now = record {
  version = 0;
  spec = some (record {
    holder_identity = some me;
    lease_duration_seconds = some lease_duration_secs;
    acquire_time = some now;
    renew_time = some now;
    lease_transitions = some 0;
  });
}

-- An i32 that is incremented wraps; here it is read modulo 2^32.
abbrev pub renewed : String → ℕ → Lease → Lease
renewed me now lease =
    let spec = spec_of lease in
    let mine = eqs (holder_of lease) me in
    record {
      version = lease.version;
      spec = some (record {
        holder_identity = some me;
        lease_duration_seconds = some lease_duration_secs;
        acquire_time = if mine then spec.acquire_time else some now;
        renew_time = some now;
        lease_transitions =
            if mine
            then spec.lease_transitions
            else some ((unwrap_or 0 spec.lease_transitions + 1) % 2 ^ 32);
      });
    }

-- `try_acquire` up to its write: the lease to create or to replace with, none where another holds it.
unfoldable pub to_write : String → ℕ → Option Lease → Option Lease
to_write me now none = some (new_lease me now)
to_write me now (some lease) =
    if not (eqs (holder_of lease) me) && not (is_expired now lease)
    then none
    else some (renewed me now lease)

pub data Attempted : Type 0 where
  leads follows fails : Attempted

-- What `try_acquire` returns for the answer to the write.
unfoldable pub attempted : String → Option Lease → Answer Lease → Attempted
attempted me read (ok _) = leads
attempted me none (err (api code)) = if code == 409 then follows else fails
attempted me (some lease) (err (api code)) =
    if code == 409 then (if eqs (holder_of lease) me then fails else follows) else fails
attempted me read (err transport) = fails

-- The whole of it: the answer to the read, and the answer to the write that is made, if one is.
unfoldable pub try_acquire : String → ℕ → Answer (Option Lease) → (Lease → Answer Lease) → Attempted
unfolding to_write attempted
try_acquire me now (err e) write = fails
try_acquire me now (ok read) write = elim (to_write me now read) [
  | none ↦ follows
  | some new ↦ attempted me read (write new)
]

-- One round of the task that keeps the lease, `elapsed` seconds after the last renewal.
pub data Renewal : Type 0 where
  renewal holding exiting : Renewal

unfoldable pub renew_round : Attempted → ℕ → Renewal
renew_round leads elapsed = renewal
renew_round follows elapsed = exiting
renew_round fails elapsed = if ltb lease_duration_secs elapsed then exiting else holding

-- `lost` and `fenced` are the two exits, with the time of the last renewal and of the exit.
pub data Tenure : Type 0 where
  held : ℕ → Tenure
  lost fenced : ℕ → ℕ → Tenure

abbrev pub after_failure : ℕ → ℕ → Tenure → Renewal → Tenure
after_failure last now rest exiting = fenced last now
after_failure last now rest _ = rest

-- The task itself: what each round returns and when, from the last renewal on.
unfoldable pub keep_lease : ℕ → List (Attempted × ℕ) → Tenure
keep_lease last [] = held last
keep_lease last ((leads, now) ∷ rounds) = keep_lease now rounds
keep_lease last ((follows, now) ∷ rounds) = lost last now
keep_lease last ((fails, now) ∷ rounds) =
    let rest = keep_lease last rounds in
    after_failure last now rest (renew_round fails (now - last))

-- `run`: a round every ten seconds until one leads, and then the task above; none while no round leads.
unfoldable pub acquire : List (Attempted × ℕ) → Option Tenure
acquire [] = none
acquire ((leads, now) ∷ rounds) = some (keep_lease now rounds)
acquire ((_, now) ∷ rounds) = acquire rounds
