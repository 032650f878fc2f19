-- ===== src/Base/Search.antt =====
-- What `find` and `keep` return.
use mathlib.Core.Path.{◌≡◌, refl, sym, ap, ◌∙◌}
use mathlib.Core.Bool.{Bool, true, false}
use mathlib.Core.Option.{some}
use mathlib.Core.List.{List, [], ◌∷◌, ◌++◌, Memᴰ}
use zfs_evacuation_controlle.Base.Tests.{if◌then◌else◌}
use zfs_evacuation_controlle.Base.Lists.{find}

module _ {A : Type 0} where
  pub some_inj : (x a : A) → some x ≡ some a → x ≡ a
  some_inj x a e = cc

  at_head :
      (p : A → Bool) (x a : A) (xs : List A) (b : Bool)
      → p x ≡ b
      → (find p xs ≡ some a → Memᴰ a xs × (p a ≡ true))
      → (if b then some x else find p xs) ≡ some a
      → Memᴰ a (x ∷ xs) × (p a ≡ true)
  at_head p x a xs true h rest e =
      let same = some_inj x a e in (Memᴰ.head (sym same), ap p (sym same) ∙ h)
  at_head p x a xs false h rest e = let r = rest e in (Memᴰ.tail r.0, r.1)

  -- What is found is in the list and passes the test.
  pub find_lem :
      (p : A → Bool) (xs : List A) (a : A) → find p xs ≡ some a → Memᴰ a xs × (p a ≡ true)
  find_lem p [] a e = cc
  find_lem p (x ∷ xs) a e = at_head p x a xs (p x) refl (find_lem p xs a) e

module _ {A : Type 0} where
  pub mem-append :
      (a : A) (xs ys : List A) (P : Type 0)
      → (Memᴰ a xs → P)
      → (Memᴰ a ys → P)
      → Memᴰ a (xs ++ ys)
      → P
  mem-append a [] ys P f g m = g m
  mem-append a (x ∷ xs) ys P f g (Memᴰ.head e) = f (Memᴰ.head e)
  mem-append a (x ∷ xs) ys P f g (Memᴰ.tail m) = mem-append a xs ys P (λ k. f (Memᴰ.tail k)) g m

  pub mem_single : (a x : A) → Memᴰ a (x ∷ []) → a ≡ x
  mem_single a x (Memᴰ.head e) = e
  mem_single a x (Memᴰ.tail m) = elim m [ ]

  pub mem_nil : (P : Type 0) (a : A) → Memᴰ a [] → P
  mem_nil P a m = elim m [ ]
