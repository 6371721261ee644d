-- ===== src/Prelude/Lists.antt =====
-- Lists by native numbers, membership and distinctness by recursion, and Go maps as association
-- lists over an equality test.
use Prim.Native.Nat.{ℕ, suc, ◌+◌}
use mathlib.Core.Path.{◌≡◌, refl, ap, sym}
use mathlib.Core.Logic.{◌⊎◌, ◌↔◌, inl, inr}
use mathlib.Core.Bool.{Bool, true, false, ◌&&◌, ◌||◌}
use mathlib.Core.Option.{Option, none, some}
use mathlib.Core.List.{List, [], ◌∷◌, ◌++◌, map}
use native.Mathlib.Omega.{arith}
use seine.Prelude.Tests.{Eq, if◌then◌else◌, Bool-cases}

module _ {ℓ} {A : Type ℓ} where
  abbrev pub length : List A → ℕ
  length [] = 0
  length (x ∷ xs) = suc (length xs)

  pub length-append : (xs ys : List A) → length (xs ++ ys) ≡ length xs + length ys
  length-append [] ys = omega arith
  length-append (x ∷ xs) ys = omega (arith, length-append xs ys)

  pub append-eq-nil : (xs ys : List A) → xs ++ ys ≡ [] → (xs ≡ []) × (ys ≡ [])
  append-eq-nil [] ys h = (refl, h)
  append-eq-nil (x ∷ xs) ys h = cc

  -- Every element satisfies `P`.
  abbrev pub All {κ} : (A → Type κ) → List A → Type κ
  All P [] = Unit
  All P (x ∷ xs) = P x × All P xs

module _ {A : Type 0} where
  -- `a` is an element of the list.
  abbrev pub In : A → List A → Type 0
  In a [] = ⊥
  In a (x ∷ xs) = (a ≡ x) ⊎ In a xs

  -- No element stands twice.
  abbrev pub Distinct : List A → Type 0
  Distinct [] = Unit
  Distinct (x ∷ xs) = (¬ In x xs) × Distinct xs

  pub In-append_left : (a : A) (xs ys : List A) → In a xs → In a (xs ++ ys)
  In-append_left a [] ys h = absurd h
  In-append_left a (x ∷ xs) ys (inl e) = inl e
  In-append_left a (x ∷ xs) ys (inr h) = inr (In-append_left a xs ys h)

  pub In-append_right : (a : A) (xs ys : List A) → In a ys → In a (xs ++ ys)
  In-append_right a [] ys h = h
  In-append_right a (x ∷ xs) ys h = inr (In-append_right a xs ys h)

  pub In_of_append : (a : A) (xs ys : List A) → In a (xs ++ ys) → In a xs ⊎ In a ys
  In_of_append a [] ys h = inr h
  In_of_append a (x ∷ xs) ys (inl e) = inl (inl e)
  In_of_append a (x ∷ xs) ys (inr h) = elim (In_of_append a xs ys h) [
    | inl p ↦ inl (inr p)
    | inr q ↦ inr q
  ]

  pub All-of_In {κ} : (P : A → Type κ) (xs : List A) → ((a : A) → In a xs → P a) → All P xs
  All-of_In P [] h = tt
  All-of_In P (x ∷ xs) h = (h x (inl refl), All-of_In P xs (λ a m. h a (inr m)))

module _ {A B : Type 0} (f : A → B) where
  pub In-map : (a : A) (xs : List A) → In a xs → In (f a) (map f xs)
  In-map a [] h = absurd h
  In-map a (x ∷ xs) (inl e) = inl (ap f e)
  In-map a (x ∷ xs) (inr h) = inr (In-map a xs h)

  pub In_of_map : (b : B) (xs : List A) → In b (map f xs) → (a : A) × In a xs × (b ≡ f a)
  In_of_map b [] h = absurd h
  In_of_map b (x ∷ xs) (inl e) = (x, inl refl, e)
  In_of_map b (x ∷ xs) (inr h) = let (a, m, e) = In_of_map b xs h in (a, inr m, e)

-- Go's `map[K]struct{}` and `map[K]V`. An insertion goes to the front, where it hides older ones.
module _ {K : Type 0} (e : Eq K) where
  abbrev pub member : K → List K → Bool
  member k [] = false
  member k (x ∷ xs) = e.beq k x || member k xs

  pub member→In : (k : K) (xs : List K) → member k xs ≡ true → In k xs
  member→In k [] h = cc
  member→In k (x ∷ xs) h = elim (Bool-cases (e.beq k x)) [
    | inl p ↦ inl ((e.beq_iff k x).0 p)
    | inr p ↦ inr (member→In k xs (ground arith))
  ]

  pub In→member : (k : K) (xs : List K) → In k xs → member k xs ≡ true
  In→member k [] h = absurd h
  In→member k (x ∷ xs) (inl p) = rw ((e.beq_iff k x).1 p)
  In→member k (x ∷ xs) (inr p) = let h = In→member k xs p in ground arith

  module _ {V : Type 0} where
    abbrev pub lookup : K → List (K × V) → Option V
    lookup k [] = none
    lookup k ((j, v) ∷ m) = if e.beq j k then some v else lookup k m

abbrev pub keys : {K V : Type 0} → List (K × V) → List K
keys [] = []
keys ((k, v) ∷ m) = k ∷ keys m

module _ {K V : Type 0} (e : Eq K) where
  pub lookup-eq-none : (k : K) (m : List (K × V)) → lookup e k m ≡ none → ¬ In k (keys m)
  lookup-eq-none k [] h = λ p. p
  lookup-eq-none k ((j, v) ∷ m) h = λ p. elim p [
    | inl q ↦ ground (arith, (e.beq_iff j k).1 (sym q))
    | inr q ↦ ground (arith, lookup-eq-none k m (ground arith) q)
  ]

-- `for _, x := range xs { s = f(s, x) }`
module _ {ℓ κ} {S : Type ℓ} {A : Type κ} where
  abbrev pub each : (S → A → S) → S → List A → S
  each f s [] = s
  each f s (x ∷ xs) = each f (f s x) xs

-- Equality of pairs and of byte strings.
module _ {A B : Type 0} (e : Eq A) (f : Eq B) where
  abbrev pub pair_beq : A × B → A × B → Bool
  pair_beq p q = e.beq p.0 q.0 && f.beq p.1 q.1

  pub pair_beq_iff : (p q : A × B) → (pair_beq p q ≡ true) ↔ (p ≡ q)
  pair_beq_iff p q = (
    λ h.
        let first : p.0 ≡ q.0 = (e.beq_iff p.0 q.0).0 (ground arith) in
        let second : p.1 ≡ q.1 = (f.beq_iff p.1 q.1).0 (ground arith) in λ i. (first i, second i),
    λ h. rw ((e.beq_iff p.0 q.0).1 (ap (λ t. t.0) h), (f.beq_iff p.1 q.1).1 (ap (λ t. t.1) h)) refl,
  )

  abbrev pub pair_eq : Eq (A × B)
  pair_eq = record { beq = pair_beq; beq_iff = pair_beq_iff }

module _ {A : Type 0} (e : Eq A) where
  abbrev pub list_beq : List A → List A → Bool
  list_beq [] [] = true
  list_beq [] (y ∷ ys) = false
  list_beq (x ∷ xs) [] = false
  list_beq (x ∷ xs) (y ∷ ys) = e.beq x y && list_beq xs ys

  list_beq→eq : (xs ys : List A) → list_beq xs ys ≡ true → xs ≡ ys
  list_beq→eq [] [] h = refl
  list_beq→eq [] (y ∷ ys) h = cc
  list_beq→eq (x ∷ xs) [] h = cc
  list_beq→eq (x ∷ xs) (y ∷ ys) h =
      let first : x ≡ y = (e.beq_iff x y).0 (ground arith) in
      let rest : xs ≡ ys = list_beq→eq xs ys (ground arith) in cc

  list_beq_refl : (xs : List A) → list_beq xs xs ≡ true
  list_beq_refl [] = refl
  list_beq_refl (x ∷ xs) = rw ((e.beq_iff x x).1 refl) (list_beq_refl xs)

  pub list_beq_iff : (xs ys : List A) → (list_beq xs ys ≡ true) ↔ (xs ≡ ys)
  list_beq_iff xs ys = (list_beq→eq xs ys, λ h. rw (← h) (list_beq_refl xs))

  abbrev pub list_eq : Eq (List A)
  list_eq = record { beq = list_beq; beq_iff = list_beq_iff }
