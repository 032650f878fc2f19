-- ===== src/Behaviour/MostFree.antt =====
-- src/controller/target.rs: the sort of the candidates, `sort_by_key(|c| Reverse(c.3))`.
use zfs_evacuation_controlle.Base.{
  ℕ, ◌≤◌, true, false, Option, none, some, List, [], ◌∷◌, Memᴰ, ◌≡◌, refl, sym, ap, subst, arith,
  first, leb, if_elim, if◌then◌else◌,
}
use zfs_evacuation_controlle.Controller.Target.{Candidate, most_free_first, insert_candidate}

-- The head after an insertion: the new one, unless the old head has more.
ahead : Candidate → Option Candidate → Option Candidate
ahead c none = some c
ahead c (some d) = if leb d.free c.free then some c else some d

first-insert_candidate :
    (c : Candidate) (cs : List Candidate) → first (insert_candidate c cs) ≡ ahead c (first cs)
unfolding insert_candidate ahead
first-insert_candidate c [] = refl
first-insert_candidate c (d ∷ ds) =
    if_elim {A = List Candidate} (λ l. first l ≡ (if leb d.free c.free then some c else some d))
      (leb d.free c.free) _ _ (λ h. rw h refl) (λ h. rw h refl)

-- The best of a list: one of it, with no less free space than any; none of the empty list.
abbrev pub Best : List Candidate → Option Candidate → Type 0
Best cs none = (d : Candidate) → Memᴰ d cs → ⊥
Best cs (some c) = Memᴰ c cs × ((d : Candidate) → Memᴰ d cs → d.free ≤ c.free)

leb→≤ : (a b : ℕ) → leb a b ≡ true → a ≤ b
leb→≤ a b h = ground arith

leb→≥ : (a b : ℕ) → leb a b ≡ false → b ≤ a
leb→≥ a b h = ground arith

free_eq : (c d : Candidate) → d ≡ c → d.free ≤ c.free
free_eq c d e = let same = ap (λ x. x.free) e in omega arith

ahead-Best :
    (c : Candidate) (cs : List Candidate) (o : Option Candidate)
    → Best cs o
    → Best (c ∷ cs) (ahead c o)
unfolding ahead
ahead-Best c cs none h =
    (Memᴰ.head refl, λ d. elim [ Memᴰ.head e ↦ free_eq c d e | Memᴰ.tail m ↦ elim (h d m) [ ] ])
ahead-Best c cs (some b) h =
    if_elim {A = Option Candidate} (Best (c ∷ cs)) (leb b.free c.free) _ _
      (λ le. (
        Memᴰ.head refl,
        λ d. elim [
          | Memᴰ.head e ↦ free_eq c d e
          | Memᴰ.tail m ↦ let x = leb→≤ b.free c.free le in let y = h.1 d m in omega arith
        ],
      ))
      (λ gt. (
        Memᴰ.tail h.0,
        λ d. elim [
          | Memᴰ.head e ↦ let x = leb→≥ b.free c.free gt in let y = free_eq c d e in omega arith
          | Memᴰ.tail m ↦ h.1 d m
        ],
      ))

-- The first of the sorted candidates is one of them, and none has more free space; there is no first
-- only if there are no candidates.
pub most_free_first-Best : (cs : List Candidate) → Best cs (first (most_free_first cs))
unfolding most_free_first
most_free_first-Best [] = λ d m. elim m [ ]
most_free_first-Best (c ∷ cs) =
    subst (Best (c ∷ cs)) (sym (first-insert_candidate c (most_free_first cs)))
      (ahead-Best c cs (first (most_free_first cs)) (most_free_first-Best cs))
