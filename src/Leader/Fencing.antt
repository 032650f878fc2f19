-- ===== src/Leader/Fencing.antt =====
-- src/leader.rs, the task of `run` that keeps the lease: when it gives up.
use zfs_evacuation_controlle.Base.{
  ℕ, ◌+◌, ◌-◌, ◌≤◌, ◌<◌, String, true, List, [], ◌∷◌, ◌≡◌, arith, ltb, Bool-cases, inl, inr, Option,
  none, some, Bool, false, refl,
}
use zfs_evacuation_controlle.Leader.{
  Lease, lease_duration_secs, is_expired, renewed, Attempted, leads, follows, fails, renew_round,
  after_failure, Tenure, held, lost, fenced, keep_lease, acquire,
}

-- From `now` on, each round ends at most `gap` seconds after the one before.
abbrev pub IsSpaced : ℕ → ℕ → List (Attempted × ℕ) → Type 0
IsSpaced gap now [] = Unit
IsSpaced gap now ((result, later) ∷ rounds) =
    (now ≤ later) × (later ≤ now + gap) × IsSpaced gap later rounds

abbrev pub last_time : ℕ → List (Attempted × ℕ) → ℕ
last_time now [] = now
last_time now ((result, later) ∷ rounds) = last_time later rounds

-- While it is held, the last renewal is at most a lease duration old; an exit comes at most `gap`
-- after that; and by a fencing exit the lease of the last renewal has expired.
abbrev pub IsBounded : ℕ → ℕ → Tenure → Type 0
IsBounded gap now (held last) = now ≤ last + 30
IsBounded gap now (lost last at) = at ≤ last + 30 + gap
IsBounded gap now (fenced last at) =
    (at ≤ last + 30 + gap)
    × ((me : String) (lease : Lease) → is_expired at (renewed me last lease) ≡ true)

expired_lem :
    (last at : ℕ) (me : String) (lease : Lease)
    → last + 30 < at
    → is_expired at (renewed me last lease) ≡ true
unfolding is_expired lease_duration_secs
expired_lem last at me lease h = ground arith

abbrev pub one_leads : List (Attempted × ℕ) → Bool
one_leads [] = false
one_leads ((leads, now) ∷ rounds) = true
one_leads ((_, now) ∷ rounds) = one_leads rounds

module _ (gap : ℕ) where
  failed_round :
      (end last now later : ℕ) (rest : Tenure)
      → now ≤ last + 30
      → later ≤ now + gap
      → (later ≤ last + 30 → IsBounded gap end rest)
      → IsBounded gap end (after_failure last later rest (renew_round fails (later - last)))
  unfolding renew_round lease_duration_secs
  failed_round end last now later rest young near onward =
      elim (Bool-cases (ltb 30 (later - last))) [
        | inl old ↦ rw old (omega arith, λ me lease. expired_lem last later me lease (ground arith))
        | inr fresh ↦ rw fresh (onward (ground arith))
      ]

  keep_lease_bound :
      (last now : ℕ) (rounds : List (Attempted × ℕ))
      → now ≤ last + 30
      → IsSpaced gap now rounds
      → IsBounded gap (last_time now rounds) (keep_lease last rounds)
  unfolding keep_lease
  keep_lease_bound last now [] h s = h
  keep_lease_bound last now ((leads, later) ∷ rounds) h s =
      keep_lease_bound later later rounds (omega arith) s.2
  keep_lease_bound last now ((follows, later) ∷ rounds) h s = let near = s.1 in omega arith
  keep_lease_bound last now ((fails, later) ∷ rounds) h s =
      failed_round (last_time later rounds) last now later (keep_lease last rounds) h s.1
        (λ young. keep_lease_bound last later rounds young s.2)

  -- A replica that holds the lease since `last`, and whose rounds end at most `gap` seconds apart: as
  -- long as it holds on, its last renewal is at most 30 seconds old; when it exits, because another
  -- holds the lease or because it cannot renew, it does so at most `gap` seconds after that; and when
  -- it is because it cannot renew, the lease that it last wrote has then expired.
  keep_lease-IsBounded :
      (last : ℕ) (rounds : List (Attempted × ℕ))
      → IsSpaced gap last rounds
      → IsBounded gap (last_time last rounds) (keep_lease last rounds)
  keep_lease-IsBounded last rounds s = keep_lease_bound last last rounds (omega arith) s

  -- It is held from the first round that leads on, and not before.
  abbrev pub IsElected : ℕ → Bool → Option Tenure → Type 0
  IsElected end led none = led ≡ false
  IsElected end led (some tenure) = (led ≡ true) × IsBounded gap end tenure

  pub acquire-IsElected :
      (start : ℕ) (rounds : List (Attempted × ℕ))
      → IsSpaced gap start rounds
      → IsElected (last_time start rounds) (one_leads rounds) (acquire rounds)
  unfolding acquire
  acquire-IsElected start [] s = refl
  acquire-IsElected start ((leads, now) ∷ rounds) s = (refl, keep_lease-IsBounded now rounds s.2)
  acquire-IsElected start ((follows, now) ∷ rounds) s = acquire-IsElected now rounds s.2
  acquire-IsElected start ((fails, now) ∷ rounds) s = acquire-IsElected now rounds s.2
