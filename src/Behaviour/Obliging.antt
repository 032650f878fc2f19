-- ===== src/Behaviour/Obliging.antt =====
-- A server that accepts every call, and from which what was to go is gone: the routines of
-- src/controller that end an evacuation, on every run against such a server.
pub mod Parts
pub mod Ends
pub mod Aborts
use zfs_evacuation_controlle.Base.{
  ℕ, suc, String, Bool, true, false, Option, none, some, ◌≡◌, refl, sym, subst, some_inj,
  if◌then◌else◌,
}
use zfs_evacuation_controlle.Crd.Evacuation.{EvacuationStatus}
use zfs_evacuation_controlle.Effect.{
  M, ret, throw, call, sense, ask, require, ◌>>=◌, Call, Value, Answer, ok, err, Sense, Reply,
  Outcome, done, raised, get_zfs_volume, get_backup, get_restore, get_snapshot, patch_status,
}
use zfs_evacuation_controlle.Authority.Warrant.{recorded_after}

abbrev pub is_status_write : Call → Bool
is_status_write (patch_status name st) = true
is_status_write _ = false

-- What answers, and what is sensed, at each step of a run.
pub record Surroundings : Type 0 where
  pub answer : ℕ → (c : Call) → Answer (Value c)
  pub reply : ℕ → (q : Sense) → Reply q

-- A run from step `n` on: the status that it leaves recorded, and how it ends.
abbrev pub played :
    {A : Type 0} → Surroundings → ℕ → EvacuationStatus → M A → EvacuationStatus × Outcome A
played env n s (ret a) = (s, done a)
played env n s (throw e) = (s, raised e)
played env n s (call c k) =
    let r = env.answer n c in played env (suc n) (recorded_after s c r) (k r)
played env n s (sense q k) = played env (suc n) s (k (env.reply n q))

-- It returns, with the status and the result so.
abbrev pub Ended :
    {A : Type 0} → (EvacuationStatus → A → Type 0) → EvacuationStatus × Outcome A → Type 0
Ended Post (s, done a) = Post s a
Ended Post (s, raised e) = ⊥

module _ (gone : String → Bool) where
  -- The resources of the transfer are absent, and so are the volumes that are to be gone.
  abbrev pub Shows : (c : Call) → Value c → Type 0
  Shows (get_zfs_volume n) v = gone n ≡ true → v ≡ none
  Shows (get_backup n) v = v ≡ none
  Shows (get_restore n) v = v ≡ none
  Shows (get_snapshot n) v = v ≡ none
  Shows c v = Unit

  abbrev pub Obliges : (c : Call) → Answer (Value c) → Type 0
  Obliges c r = elim r [ ok v ↦ Shows c v | err e ↦ ⊥ ]

  -- With such answers the tree returns, and what it then has recorded, and its result, are so.
  abbrev pub Yields :
      {A : Type 0} → (EvacuationStatus → A → Type 0) → EvacuationStatus → M A → Type 0
  Yields Post s (ret a) = Post s a
  Yields Post s (throw e) = ⊥
  Yields Post s (call c k) =
      (r : Answer (Value c)) → Obliges c r → Yields Post (recorded_after s c r) (k r)
  Yields Post s (sense q k) = (r : _) → Yields Post s (k r)

  abbrev pub IsObliging : Surroundings → Type 0
  IsObliging env = (n : ℕ) (c : Call) → Obliges c (env.answer n c)

  pub played-Ended :
      {A : Type 0} (Post : EvacuationStatus → A → Type 0) (env : Surroundings) (n : ℕ)
      (s : EvacuationStatus) (tree : M A)
      → IsObliging env
      → Yields Post s tree
      → Ended Post (played env n s tree)
  played-Ended Post env n s (ret a) obliging h = h
  played-Ended Post env n s (throw e) obliging h = h
  played-Ended Post env n s (call c k) obliging h =
      let r = env.answer n c in
      played-Ended Post env (suc n) (recorded_after s c r) (k r) obliging (h r (obliging n c))
  played-Ended Post env n s (sense q k) obliging h =
      played-Ended Post env (suc n) s (k (env.reply n q)) obliging (h (env.reply n q))

  -- The same of a tree that writes no status.
  abbrev pub IsSteady : {A : Type 0} → (A → Type 0) → M A → Type 0
  IsSteady R (ret a) = R a
  IsSteady R (throw e) = ⊥
  IsSteady R (call c k) =
      (is_status_write c ≡ false) × ((r : Answer (Value c)) → Obliges c r → IsSteady R (k r))
  IsSteady R (sense q k) = (r : _) → IsSteady R (k r)

  recorded_before :
      (s : EvacuationStatus) (c : Call) (r : Answer (Value c))
      → is_status_write c ≡ false
      → recorded_after s c r ≡ s
  recorded_before s (patch_status name st) r h = cc
  recorded_before s _ r h = refl

  module _ {A B : Type 0} (R : A → Type 0) where
    pub Yields-after :
        (Post : EvacuationStatus → B → Type 0) (s : EvacuationStatus) (tree : M A) (f : A → M B)
        → IsSteady R tree
        → ((a : A) → R a → Yields Post s (f a))
        → Yields Post s (tree >>= f)
    Yields-after Post s (ret a) f h go = go a h
    Yields-after Post s (throw e) f h go = absurd h
    Yields-after Post s (call c k) f h go = λ r o.
        subst (λ x. Yields Post x (k r >>= f)) (sym (recorded_before s c r h.0))
          (Yields-after Post s (k r) f (h.1 r o) go)
    Yields-after Post s (sense q k) f h go = λ r. Yields-after Post s (k r) f (h r) go

    pub IsSteady-bind :
        (S : B → Type 0) (tree : M A) (f : A → M B)
        → IsSteady R tree
        → ((a : A) → R a → IsSteady S (f a))
        → IsSteady S (tree >>= f)
    IsSteady-bind S (ret a) f h go = go a h
    IsSteady-bind S (throw e) f h go = absurd h
    IsSteady-bind S (call c k) f h go = (h.0, λ r o. IsSteady-bind S (k r) f (h.1 r o) go)
    IsSteady-bind S (sense q k) f h go = λ r. IsSteady-bind S (k r) f (h r) go

  module _ {B : Type 0} (S : B → Type 0) where
    pub IsSteady-ask :
        (c : Call) (f : Value c → M B)
        → is_status_write c ≡ false
        → ((v : Value c) → Shows c v → IsSteady S (f v))
        → IsSteady S (ask c >>= f)
    IsSteady-ask c f h go = (h, elim [ ok v ↦ λ o. go v o | err e ↦ λ o. absurd o ])

    pub IsSteady-if :
        (b : Bool) (t u : M B) → IsSteady S t → IsSteady S u → IsSteady S (if b then t else u)
    IsSteady-if true t u ht hu = ht
    IsSteady-if false t u ht hu = hu

    pub IsSteady-option :
        {A : Type 0} (o : Option A) (t : M B) (f : A → M B)
        → IsSteady S t
        → ((a : A) → IsSteady S (f a))
        → IsSteady S (elim o [ none ↦ t | some a ↦ f a ])
    IsSteady-option none t f ht hf = ht
    IsSteady-option (some a) t f ht hf = hf a

  -- A value that is known to be there.
  pub Yields-known :
      {A B : Type 0} (Post : EvacuationStatus → B → Type 0) (s : EvacuationStatus) (o : Option A)
      (a : A) (msg : String) (f : A → M B)
      → o ≡ some a
      → Yields Post s (f a)
      → Yields Post s (require o msg >>= f)
  Yields-known Post s none a msg f e h = cc
  Yields-known Post s (some x) a msg f e h =
      subst (λ y. Yields Post s (f y)) (sym (some_inj x a e)) h
