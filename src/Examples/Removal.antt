-- ===== src/Examples/Removal.antt =====
-- Taking an element out of a list, as the example devices and providers do.
use seine.Prelude.{
  Eq, ◌≡◌, refl, sym, ◌∙◌, ap, Bool, true, false, ◌||◌, List, [], ◌∷◌, member, Bool-cases, inl, inr,
  if◌then◌else◌,
}

module _ {A : Type 0} (e : Eq A) where
  abbrev pub without : A → List A → List A
  without k [] = []
  without k (x ∷ xs) = if e.beq x k then without k xs else x ∷ without k xs

  dropped : (b m : Bool) → (if b then false else m) ≡ (if b then false else (b || m))
  dropped true m = refl
  dropped false m = refl

  kept :
      (b c m : Bool)
      → (b ≡ true → c ≡ true → ⊥)
      → (b || (if c then false else m)) ≡ (if c then false else (b || m))
  kept true true m h = absurd (h refl refl)
  kept true false m h = refl
  kept false true m h = refl
  kept false false m h = refl

  pub member-without :
      (k j : A) (xs : List A)
      → member e k (without j xs) ≡ (if e.beq k j then false else member e k xs)
  member-without k j [] = elim (Bool-cases (e.beq k j)) [ inl p ↦ rw p refl | inr p ↦ rw p refl ]
  member-without k j (x ∷ xs) = elim (Bool-cases (e.beq x j)) [
    | inl p ↦ rw p (
        member-without k j xs
        ∙ (dropped (e.beq k j) (member e k xs)
            ∙ ap (λ y. if e.beq k j then false else (e.beq k y || member e k xs))
                (sym ((e.beq_iff x j).0 p))))
    | inr p ↦ rw p (
        ap (λ m. e.beq k x || m) (member-without k j xs)
        ∙ kept (e.beq k x) (e.beq k j) (member e k xs) (λ a b.
          (let same : x ≡ j = sym ((e.beq_iff k x).0 a) ∙ (e.beq_iff k j).0 b in
            let hit = (e.beq_iff x j).1 same in cc)))
  ]
