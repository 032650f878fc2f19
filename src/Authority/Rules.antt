-- ===== src/Authority/Rules.antt =====
-- Rules for trees under the authority monitor: parts that write no status, and their sequences.
use zfs_evacuation_controlle.Base.{
  Option, none, some, Bool, true, false, ◌≡◌, refl, sym, subst, arith, String, if◌then◌else◌,
}
use zfs_evacuation_controlle.Crd.Evacuation.{Evacuation, EvacuationStatus}
use zfs_evacuation_controlle.Effect.{
  M, ret, throw, call, sense, Call, Value, Error, Answer, Outcome, raised, lift, require, ok, err,
  ◌>>=◌, patch_status, Safe,
}
use zfs_evacuation_controlle.Authority.Warrant.{Allowed, recorded_after, authority}

abbrev pub is_status_write : Call → Bool
is_status_write (patch_status name t) = true
is_status_write _ = false

recorded_after_lem :
    (s : EvacuationStatus) (c : Call) (r : Answer (Value c))
    → is_status_write c ≡ false
    → recorded_after s c r ≡ s
recorded_after_lem s (patch_status name t) r h = ground arith
recorded_after_lem s _ r h = refl

module _ (evac : Evacuation) where
  -- Nothing of the outcome is asked for.
  abbrev pub Anyhow : {A : Type 0} → EvacuationStatus → Outcome A → Type 0
  Anyhow s o = Unit

  abbrev pub Safely : {A : Type 0} → EvacuationStatus → M A → Type 0
  Safely s t = Safe (authority evac) Anyhow s t

  -- Allowed throughout in the state `s`, with no write of the status; `Q` holds of the result.
  abbrev pub Stays : {A : Type 0} → EvacuationStatus → (A → Type 0) → M A → Type 0
  Stays s Q (ret a) = Q a
  Stays s Q (throw e) = Unit
  Stays s Q (call c k) =
      (is_status_write c ≡ false) × Allowed evac s c × ((r : Answer (Value c)) → Stays s Q (k r))
  Stays s Q (sense q k) = (r : _) → Stays s Q (k r)

  module _ {A B : Type 0} (Q : A → Type 0) where
    pub Safe-Stays :
        (Post : EvacuationStatus → Outcome B → Type 0) (s : EvacuationStatus) (t : M A)
        (f : A → M B)
        → Stays s Q t
        → ((a : A) → Q a → Safe (authority evac) Post s (f a))
        → ((e : Error) → Post s (raised e))
        → Safe (authority evac) Post s (t >>= f)
    Safe-Stays Post s (ret a) f h go stop = go a h
    Safe-Stays Post s (throw e) f h go stop = stop e
    Safe-Stays Post s (call c k) f h go stop = (
      h.1,
      λ r.
          subst (λ s'. Safe (authority evac) Post s' (k r >>= f))
            (sym (recorded_after_lem s c r h.0)) (Safe-Stays Post s (k r) f (h.2 r) go stop),
    )
    Safe-Stays Post s (sense q k) f h go stop = λ r. Safe-Stays Post s (k r) f (h r) go stop

    pub Stays-bind :
        (R : B → Type 0) (s : EvacuationStatus) (t : M A) (f : A → M B)
        → Stays s Q t
        → ((a : A) → Q a → Stays s R (f a))
        → Stays s R (t >>= f)
    Stays-bind R s (ret a) f h go = go a h
    Stays-bind R s (throw e) f h go = tt
    Stays-bind R s (call c k) f h go = (h.0, h.1, λ r. Stays-bind R s (k r) f (h.2 r) go)
    Stays-bind R s (sense q k) f h go = λ r. Stays-bind R s (k r) f (h r) go

  -- The rules for any postcondition, over what the outcome of an error has to meet.
  module _ {B : Type 0} (Post : EvacuationStatus → Outcome B → Type 0) (s : EvacuationStatus)
      (stop : (e : Error) → Post s (raised e)) where
    pub require-Safe :
        {A : Type 0} (o : Option A) (msg : String) (f : A → M B)
        → ((a : A) → o ≡ some a → Safe (authority evac) Post s (f a))
        → Safe (authority evac) Post s (require o msg >>= f)
    require-Safe none msg f h = stop _
    require-Safe (some a) msg f h = h a refl

    pub lift-Safe :
        {A : Type 0} (r : Answer A) (f : A → M B)
        → ((a : A) → r ≡ ok a → Safe (authority evac) Post s (f a))
        → Safe (authority evac) Post s (lift r >>= f)
    lift-Safe (ok a) f h = h a refl
    lift-Safe (err e) f h = stop _

  module _ {B : Type 0} (Post : EvacuationStatus → Outcome B → Type 0) (s : EvacuationStatus) where
    pub if-Safe :
        (b : Bool) (t u : M B)
        → (b ≡ true → Safe (authority evac) Post s t)
        → (b ≡ false → Safe (authority evac) Post s u)
        → Safe (authority evac) Post s (if b then t else u)
    if-Safe true t u ht hu = ht refl
    if-Safe false t u ht hu = hu refl

    -- A match on an optional value, in the source's two branches.
    pub option-Safe :
        {A : Type 0} (o : Option A) (t : M B) (f : A → M B)
        → (o ≡ none → Safe (authority evac) Post s t)
        → ((a : A) → o ≡ some a → Safe (authority evac) Post s (f a))
        → Safe (authority evac) Post s (elim o [ none ↦ t | some a ↦ f a ])
    option-Safe none t f ht hf = ht refl
    option-Safe (some a) t f ht hf = hf a refl

  -- The same where nothing of the outcome is asked for.
  module _ {B : Type 0} (s : EvacuationStatus) where
    pub require-Safely :
        {A : Type 0} (o : Option A) (msg : String) (f : A → M B)
        → ((a : A) → o ≡ some a → Safely s (f a))
        → Safely s (require o msg >>= f)
    require-Safely = require-Safe Anyhow s (λ e. tt)

    pub lift-Safely :
        {A : Type 0} (r : Answer A) (f : A → M B)
        → ((a : A) → r ≡ ok a → Safely s (f a))
        → Safely s (lift r >>= f)
    lift-Safely = lift-Safe Anyhow s (λ e. tt)

    pub if-Safely :
        (b : Bool) (t u : M B)
        → (b ≡ true → Safely s t)
        → (b ≡ false → Safely s u)
        → Safely s (if b then t else u)
    if-Safely = if-Safe Anyhow s

    pub option-Safely :
        {A : Type 0} (o : Option A) (t : M B) (f : A → M B)
        → (o ≡ none → Safely s t)
        → ((a : A) → o ≡ some a → Safely s (f a))
        → Safely s (elim o [ none ↦ t | some a ↦ f a ])
    option-Safely = option-Safe Anyhow s

    pub Stays-Safely :
        {A : Type 0} (Q : A → Type 0) (t : M A) (f : A → M B)
        → Stays s Q t
        → ((a : A) → Q a → Safely s (f a))
        → Safely s (t >>= f)
    Stays-Safely Q t f h go = Safe-Stays Q Anyhow s t f h go (λ e. tt)

  -- Rules for the parts that write no status.
  module _ {B : Type 0} (s : EvacuationStatus) (Q : B → Type 0) where
    pub if-Stays :
        (b : Bool) (t u : M B) → Stays s Q t → Stays s Q u → Stays s Q (if b then t else u)
    if-Stays true t u ht hu = ht
    if-Stays false t u ht hu = hu

    pub lift-Stays :
        {A : Type 0} (r : Answer A) (f : A → M B)
        → ((a : A) → Stays s Q (f a))
        → Stays s Q (lift r >>= f)
    lift-Stays (ok a) f h = h a
    lift-Stays (err e) f h = tt

    pub require-Stays :
        {A : Type 0} (o : Option A) (msg : String) (f : A → M B)
        → ((a : A) → o ≡ some a → Stays s Q (f a))
        → Stays s Q (require o msg >>= f)
    require-Stays none msg f h = tt
    require-Stays (some a) msg f h = h a refl

    pub option-Stays :
        {A : Type 0} (o : Option A) (t : M B) (f : A → M B)
        → (o ≡ none → Stays s Q t)
        → ((a : A) → o ≡ some a → Stays s Q (f a))
        → Stays s Q (elim o [ none ↦ t | some a ↦ f a ])
    option-Stays none t f ht hf = ht refl
    option-Stays (some a) t f ht hf = hf a refl

  -- A fact that holds of any result.
  pub Stays-weaken :
      {A : Type 0} (Q R : A → Type 0) (s : EvacuationStatus) (t : M A)
      → Stays s Q t
      → ((a : A) → R a)
      → Stays s R t
  Stays-weaken Q R s (ret a) h f = f a
  Stays-weaken Q R s (throw e) h f = tt
  Stays-weaken Q R s (call c k) h f = (h.0, h.1, λ r. Stays-weaken Q R s (k r) (h.2 r) f)
  Stays-weaken Q R s (sense q k) h f = λ r. Stays-weaken Q R s (k r) (h r) f
