-- ===== src/Crd/Params/Locking.antt =====
-- src/crd/zfs_evacuation.rs, `EvacuationParamsSpec::lock` and `unlock`.
use zfs_evacuation_controlle.Base.{
  ◌≤◌, String, Bool, true, false, ◌||◌, List, [], ◌∷◌, ◌++◌, ◌≡◌, refl, subst, ap, ◌∙◌, contains,
  eqs, eqs→eq, eq→eqs, length, arith, if◌then◌else◌,
}
use zfs_evacuation_controlle.Crd.Evacuation.{EvacuationMode, when_idle, when_claimed}
use zfs_evacuation_controlle.Crd.Params.{ParamsSpec, without, pushed, lock_lists, lock, unlock}

-- The list of a mode, and the other one.
abbrev pub listed : EvacuationMode → ParamsSpec → List String
listed when_idle p = p.pvc_keys
listed when_claimed p = p.claimable_pvc_keys

abbrev pub other_mode : EvacuationMode → EvacuationMode
other_mode when_idle = when_claimed
other_mode when_claimed = when_idle

abbrev pub is_mode : EvacuationMode → EvacuationMode → Bool
is_mode when_idle when_idle = true
is_mode when_claimed when_claimed = true
is_mode _ _ = false

mode_lem : (mode : EvacuationMode) → is_mode mode mode ≡ true
mode_lem when_idle = refl
mode_lem when_claimed = refl

other_mode_lem : (mode : EvacuationMode) → is_mode (other_mode mode) mode ≡ false
other_mode_lem when_idle = refl
other_mode_lem when_claimed = refl

if_intro :
    (r b : Bool) (x y : Bool) → (b ≡ true → r ≡ x) → (b ≡ false → r ≡ y) → r ≡ (if b then x else y)
if_intro r true x y h g = h refl
if_intro r false x y h g = g refl

eqs_refl : (k : String) → eqs k k ≡ true
eqs_refl k = eq→eqs k k refl

eqs_trans : (x k key : String) → eqs x key ≡ true → eqs x k ≡ eqs key k
eqs_trans x k key h = ap (λ y. eqs y k) (eqs→eq x key h)

module _ (key : String) where
  contains-without_self : (xs : List String) → contains key (without key xs) ≡ false
  contains-without_self [] = refl
  contains-without_self (x ∷ xs) = ground (arith, contains-without_self xs)

  contains-without :
      (k : String) (xs : List String)
      → eqs key k ≡ false
      → contains k (without key xs) ≡ contains k xs
  contains-without k [] h = refl
  contains-without k (x ∷ xs) h = ground (arith, eqs_trans x k key, contains-without k xs h)

  without_none : (xs : List String) → contains key xs ≡ false → without key xs ≡ xs
  without_none [] h = refl
  without_none (x ∷ xs) h = ground (arith, without_none xs)

  length-without_le : (xs : List String) → length (without key xs) ≤ length xs
  length-without_le [] = omega arith
  length-without_le (x ∷ xs) = ground (arith, length-without_le xs)

  -- Nothing is lost exactly if the key was not there.
  length-without :
      (xs : List String) → length (without key xs) ≡ length xs → contains key xs ≡ false
  length-without [] h = refl
  length-without (x ∷ xs) h = ground (arith, length-without_le xs, length-without xs)

  contains-append :
      (k : String) (xs : List String) → contains k (xs ++ key ∷ []) ≡ (contains k xs || eqs key k)
  contains-append k [] = ground arith
  contains-append k (x ∷ xs) = ground (arith, contains-append k xs)

  contains-pushed_self : (xs : List String) → contains key (pushed key xs) ≡ true
  contains-pushed_self xs = ground (arith, contains-append key xs, eqs_refl key)

  contains-pushed :
      (k : String) (xs : List String)
      → eqs key k ≡ false
      → contains k (pushed key xs) ≡ contains k xs
  contains-pushed k xs h = ground (arith, contains-append k xs)

  lock-others :
      (mode : EvacuationMode) (p : ParamsSpec) (m : EvacuationMode) (k : String)
      → eqs key k ≡ false
      → contains k (listed m (lock key mode p).0) ≡ contains k (listed m p)
  unfolding lock lock_lists
  lock-others when_idle p when_idle k h = contains-pushed k _ h
  lock-others when_idle p when_claimed k h = contains-without k _ h
  lock-others when_claimed p when_idle k h = contains-without k _ h
  lock-others when_claimed p when_claimed k h = contains-pushed k _ h

  lock_self :
      (mode : EvacuationMode) (p : ParamsSpec) (m : EvacuationMode)
      → contains key (listed m (lock key mode p).0) ≡ is_mode m mode
  unfolding lock lock_lists
  lock_self when_idle p when_idle = contains-pushed_self _
  lock_self when_idle p when_claimed = contains-without_self _
  lock_self when_claimed p when_idle = contains-without_self _
  lock_self when_claimed p when_claimed = contains-pushed_self _

  -- After `lock`, the key is in the list of the mode and not in the other, and every other key is
  -- in the lists it was in.
  lock_lem :
      (mode : EvacuationMode) (p : ParamsSpec) (m : EvacuationMode) (k : String)
      → contains k (listed m (lock key mode p).0)
        ≡ (if eqs key k then is_mode m mode else contains k (listed m p))
  lock_lem mode p m k =
      if_intro (contains k (listed m (lock key mode p).0)) (eqs key k) _ _
        (λ h.
          subst (λ x. contains x (listed m (lock key mode p).0) ≡ is_mode m mode) (eqs→eq key k h)
            (lock_self mode p m))
        (λ h. lock-others mode p m k h)

  unlock_self :
      (p : ParamsSpec) (m : EvacuationMode) → contains key (listed m (unlock key p).0) ≡ false
  unfolding unlock
  unlock_self p when_idle = contains-without_self _
  unlock_self p when_claimed = contains-without_self _

  unlock-others :
      (p : ParamsSpec) (m : EvacuationMode) (k : String)
      → eqs key k ≡ false
      → contains k (listed m (unlock key p).0) ≡ contains k (listed m p)
  unfolding unlock
  unlock-others p when_idle k h = contains-without k _ h
  unlock-others p when_claimed k h = contains-without k _ h

  -- After `unlock`, the key is in neither list, and every other key is in the lists it was in.
  pub unlock_lem :
      (p : ParamsSpec) (m : EvacuationMode) (k : String)
      → contains k (listed m (unlock key p).0)
        ≡ (if eqs key k then false else contains k (listed m p))
  unlock_lem p m k =
      if_intro (contains k (listed m (unlock key p).0)) (eqs key k) _ _
        (λ h.
          subst (λ x. contains x (listed m (unlock key p).0) ≡ false) (eqs→eq key k h)
            (unlock_self p m))
        (λ h. unlock-others p m k h)

  -- After `lock`, the key is in the list of the mode and not in the other; after `unlock`, it is in
  -- neither; and after either, every other key is in the lists it was in.
  pub keys_after :
      (mode : EvacuationMode) (p : ParamsSpec) (m : EvacuationMode) (k : String)
      → (contains k (listed m (lock key mode p).0)
          ≡ (if eqs key k then is_mode m mode else contains k (listed m p)))
        × (contains k (listed m (unlock key p).0)
            ≡ (if eqs key k then false else contains k (listed m p)))
  keys_after mode p m k = (lock_lem mode p m k, unlock_lem p m k)

  -- The lists of a lock that reports no change.
  pushed_same : (xs : List String) → contains key xs ≡ true → pushed key xs ≡ xs
  pushed_same xs h = ground arith

  lists_same :
      (into out_of : List String)
      → (lock_lists key into out_of).1 ≡ false
      → (contains key into ≡ true) × (contains key out_of ≡ false)
  unfolding lock_lists
  lists_same into out_of h = ground (arith, length-without out_of)

  lists_report :
      (into out_of : List String)
      → contains key into ≡ true
      → contains key out_of ≡ false
      → (lock_lists key into out_of).1 ≡ false
  unfolding lock_lists
  lists_report into out_of h g = ground (arith, without_none out_of, ap (length {A = String}))

  -- A lock that reports no change has made none: nothing needs to be written.
  lock_unchanged :
      (mode : EvacuationMode) (p : ParamsSpec)
      → (lock key mode p).1 ≡ false
      → (lock key mode p).0 ≡ p
  unfolding lock lock_lists
  lock_unchanged when_idle p h =
      let at = lists_same p.pvc_keys p.claimable_pvc_keys h in
      rw (pushed_same p.pvc_keys at.0, without_none p.claimable_pvc_keys at.1) refl
  lock_unchanged when_claimed p h =
      let at = lists_same p.claimable_pvc_keys p.pvc_keys h in
      rw (pushed_same p.claimable_pvc_keys at.0, without_none p.pvc_keys at.1) refl

  lock_settled :
      (mode : EvacuationMode) (p : ParamsSpec)
      → contains key (listed mode p) ≡ true
      → contains key (listed (other_mode mode) p) ≡ false
      → (lock key mode p).1 ≡ false
  unfolding lock
  lock_settled when_idle p h g = lists_report p.pvc_keys p.claimable_pvc_keys h g
  lock_settled when_claimed p h g = lists_report p.claimable_pvc_keys p.pvc_keys h g

  -- A second lock in the same mode reports no change.
  lock_again :
      (mode : EvacuationMode) (p : ParamsSpec) → (lock key mode (lock key mode p).0).1 ≡ false
  lock_again mode p =
      lock_settled mode (lock key mode p).0 (lock_self mode p mode ∙ mode_lem mode)
        (lock_self mode p (other_mode mode) ∙ other_mode_lem mode)

  without-append : (xs : List String) → without key (xs ++ key ∷ []) ≡ without key xs
  without-append [] = ground (arith, eqs_refl key)
  without-append (x ∷ xs) = ground (arith, without-append xs)

  without-pushed : (xs : List String) → without key (pushed key xs) ≡ without key xs
  without-pushed xs = ground (arith, without-append xs)

  without_twice : (xs : List String) → without key (without key xs) ≡ without key xs
  without_twice xs = without_none (without key xs) (contains-without_self xs)

  -- Unlocking after a lock leaves what unlocking without it would leave.
  pub unlock-lock :
      (mode : EvacuationMode) (p : ParamsSpec)
      → (unlock key (lock key mode p).0).0 ≡ (unlock key p).0
  unfolding lock lock_lists unlock
  unlock-lock when_idle p = rw (without-pushed p.pvc_keys, without_twice p.claimable_pvc_keys) refl
  unlock-lock when_claimed p =
      rw (without-pushed p.claimable_pvc_keys, without_twice p.pvc_keys) refl

  -- An unlock that reports no change has made none.
  pub unlock_unchanged : (p : ParamsSpec) → (unlock key p).1 ≡ false → (unlock key p).0 ≡ p
  unfolding unlock
  unlock_unchanged p h =
      let a = length-without_le p.pvc_keys in
      let b = length-without_le p.claimable_pvc_keys in
      rw
        (
          without_none p.pvc_keys (length-without p.pvc_keys (ground arith)),
          without_none p.claimable_pvc_keys (length-without p.claimable_pvc_keys (ground arith)),
        )
        refl

  -- An `unless changed` in the form of an equation.
  kept_lem :
      (after before : ParamsSpec) (changed : Bool)
      → (changed ≡ false → after ≡ before)
      → after ≡ (if changed then after else before)
  kept_lem after before true h = refl
  kept_lem after before false h = h refl

  -- The lists change only if a change is reported, in a lock as in an unlock, and a second lock in the
  -- same mode reports none.
  pub lock_reports :
      (mode : EvacuationMode) (p : ParamsSpec)
      → ((lock key mode p).0 ≡ (if (lock key mode p).1 then (lock key mode p).0 else p))
        × ((unlock key p).0 ≡ (if (unlock key p).1 then (unlock key p).0 else p))
        × ((lock key mode (lock key mode p).0).1 ≡ false)
  lock_reports mode p = (
    kept_lem (lock key mode p).0 p (lock key mode p).1 (lock_unchanged mode p),
    kept_lem (unlock key p).0 p (unlock key p).1 (unlock_unchanged p),
    lock_again mode p,
  )
