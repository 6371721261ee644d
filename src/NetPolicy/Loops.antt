-- ===== src/NetPolicy/Loops.antt =====
-- Loops that collect: what a nest of `for` loops adds to a collection.
use seine.Prelude.{refl, ◌⊎◌, ◌↔◌, inl, inr, List, [], ◌∷◌, In, each}

-- `Q` holds of some element.
abbrev pub Some : {A : Type 0} → (A → Type 0) → List A → Type 0
Some Q [] = ⊥
Some Q (x ∷ xs) = Q x ⊎ Some Q xs

pub Some→In : {A : Type 0} (Q : A → Type 0) (xs : List A) → Some Q xs → (x : A) × In x xs × Q x
Some→In Q [] h = absurd h
Some→In Q (x ∷ xs) (inl q) = (x, inl refl, q)
Some→In Q (x ∷ xs) (inr h) = let (y, m, q) = Some→In Q xs h in (y, inr m, q)

pub In→Some : {A : Type 0} (Q : A → Type 0) (xs : List A) (x : A) → In x xs → Q x → Some Q xs
In→Some Q [] x m q = absurd m
In→Some Q (y ∷ xs) x (inl e) q = inl (rw (← e) q)
In→Some Q (y ∷ xs) x (inr m) q = inr (In→Some Q xs x m q)

-- A loop whose body adds what `Q` says of its element adds what `Q` says of some element.
module _ {S A : Type 0} (P : S → Type 0) (Q : A → Type 0) (f : S → A → S)
    (adds : (s : S) (a : A) → P (f s a) ↔ (P s ⊎ Q a)) where
  pub each-adds : (s : S) (xs : List A) → P (each f s xs) ↔ (P s ⊎ Some Q xs)
  each-adds s [] = (inl, λ h. elim h [ inl p ↦ p | inr q ↦ absurd q ])
  each-adds s (x ∷ xs) =
      let ih = each-adds (f s x) xs in
      let one = adds s x in
      (
        λ h. elim (ih.0 h) [
          | inl p ↦ elim (one.0 p) [ inl q ↦ inl q | inr q ↦ inr (inl q) ]
          | inr q ↦ inr (inr q)
        ],
        λ h. elim h [
          | inl p ↦ ih.1 (inl (one.1 (inl p)))
          | inr q ↦ elim q [ inl r ↦ ih.1 (inl (one.1 (inr r))) | inr r ↦ ih.1 (inr r) ]
        ],
      )
