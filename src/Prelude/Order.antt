-- ===== src/Prelude/Order.antt =====
-- The order of texts by their code points is total, and sorting by it forgets the order of a list.
use Prim.Native.Nat.{ℕ}
use mathlib.Core.Bool.{Bool, true, false}
use mathlib.Core.Logic.{inl, inr}
use mathlib.Core.Path.{◌≡◌, refl, sym, ap, ◌∙◌}
use mathlib.Core.List.{List, [], ◌∷◌, Permᴰ}
use native.Mathlib.Omega.{arith}
use seine.Prelude.Tests.{Bool-cases}
use seine.Prelude.Lists.{All}
use seine.Prelude.Sort.{codes_less, insert_sorted, sort_slice}

codes_less-asym : (xs ys : List ℕ) → codes_less xs ys ≡ true → codes_less ys xs ≡ false
codes_less-asym xs [] h = absurd (cc)
codes_less-asym [] (y ∷ ys) h = refl
codes_less-asym (x ∷ xs) (y ∷ ys) h = ground (arith, codes_less-asym xs ys)

-- Where `zs` is not below `ys` and is below `xs`, `ys` is below `xs`.
codes_less-between :
    (xs ys zs : List ℕ)
    → codes_less zs ys ≡ false
    → codes_less zs xs ≡ true
    → codes_less ys xs ≡ true
codes_less-between [] ys zs h k = absurd (cc)
codes_less-between (x ∷ xs) [] zs h k = refl
codes_less-between (x ∷ xs) (y ∷ ys) [] h k = absurd (cc)
codes_less-between (x ∷ xs) (y ∷ ys) (z ∷ zs) h k = ground (arith, codes_less-between xs ys zs)

codes_less-total : (xs ys : List ℕ) → codes_less xs ys ≡ false → codes_less ys xs ≡ false → xs ≡ ys
codes_less-total [] [] h k = refl
codes_less-total [] (y ∷ ys) h k = absurd (cc)
codes_less-total (x ∷ xs) [] h k = absurd (cc)
codes_less-total (x ∷ xs) (y ∷ ys) h k = ground (arith, codes_less-total xs ys)

Perm_refl : {A : Type 0} (xs : List A) → Permᴰ xs xs
Perm_refl [] = Permᴰ.nil
Perm_refl (x ∷ xs) = Permᴰ.cons refl (Perm_refl xs)

pub Perm_sym : {A : Type 0} (xs ys : List A) → Permᴰ xs ys → Permᴰ ys xs
Perm_sym xs ys Permᴰ.nil = Permᴰ.nil
Perm_sym xs ys (Permᴰ.cons {l₁ = us} {l₂ = vs} e d) = Permᴰ.cons (sym e) (Perm_sym us vs d)
Perm_sym xs ys (Permᴰ.swap e f) = Permᴰ.swap (sym f) (sym e)
Perm_sym xs ys (Permᴰ.trans {l₂ = ms} d e) = Permᴰ.trans (Perm_sym ms ys e) (Perm_sym xs ms d)

All-Perm : {A : Type 0} (P : A → Type 0) (xs ys : List A) → Permᴰ xs ys → All P xs → All P ys
All-Perm P xs ys Permᴰ.nil h = tt
All-Perm P xs ys (Permᴰ.cons {l₁ = us} {l₂ = vs} e d) h = (rw (← e) h.0, All-Perm P us vs d h.1)
All-Perm P xs ys (Permᴰ.swap e f) h = (rw (← f) h.1.0, (rw (← e) h.0, h.1.1))
All-Perm P xs ys (Permᴰ.trans {l₂ = ms} d e) h = All-Perm P ms ys e (All-Perm P xs ms d h)

module _ {A : Type 0} (key : A → List ℕ) where
  abbrev pub by_key : A → A → Bool
  by_key x y = codes_less (key x) (key y)

  insert_sorted-Perm : (x : A) (xs : List A) → Permᴰ (x ∷ xs) (insert_sorted by_key x xs)
  unfolding insert_sorted
  insert_sorted-Perm x [] = Permᴰ.cons refl Permᴰ.nil
  insert_sorted-Perm x (y ∷ ys) = elim (Bool-cases (by_key y x)) [
    | inl b ↦ rw b (Permᴰ.trans (Permᴰ.swap refl refl) (Permᴰ.cons refl (insert_sorted-Perm x ys)))
    | inr b ↦ rw b (Perm_refl (x ∷ y ∷ ys))
  ]

  pub sort_slice-Perm : (xs : List A) → Permᴰ xs (sort_slice by_key xs)
  unfolding sort_slice
  sort_slice-Perm [] = Permᴰ.nil
  sort_slice-Perm (x ∷ xs) =
      Permᴰ.trans (Permᴰ.cons refl (sort_slice-Perm xs))
        (insert_sorted-Perm x (sort_slice by_key xs))

  after_smaller :
      (x y : A) (ys : List A)
      → by_key y x ≡ true
      → insert_sorted by_key x (y ∷ ys) ≡ y ∷ insert_sorted by_key x ys
  unfolding insert_sorted
  after_smaller x y ys h = rw (insert_sorted, h) refl

  before_others :
      (x y : A) (ys : List A) → by_key y x ≡ false → insert_sorted by_key x (y ∷ ys) ≡ x ∷ y ∷ ys
  unfolding insert_sorted
  before_others x y ys h = rw (insert_sorted, h) refl

  alone : (x : A) → insert_sorted by_key x [] ≡ x ∷ []
  unfolding insert_sorted
  alone x = refl

  -- Two elements that their keys tell apart may be inserted in either order: first in front of a list
  -- whose head is not below them.
  insert_front :
      (x y : A) (l : List A)
      → (key x ≡ key y → x ≡ y)
      → insert_sorted by_key x l ≡ x ∷ l
      → insert_sorted by_key y l ≡ y ∷ l
      → insert_sorted by_key x (insert_sorted by_key y l)
        ≡ insert_sorted by_key y (insert_sorted by_key x l)
  insert_front x y l inj hx hy = elim (Bool-cases (by_key y x)) [
    | inl b ↦
        let c = codes_less-asym (key y) (key x) b in
        rw (hx, hy) (after_smaller x y l b ∙ (ap (λ t. y ∷ t) hx ∙ sym (before_others y x l c)))
    | inr b ↦ elim (Bool-cases (by_key x y)) [
      | inl c ↦
          rw (hx, hy)
            (before_others x y l b ∙ (sym (ap (λ t. x ∷ t) hy) ∙ sym (after_smaller y x l c)))
      | inr c ↦ let same : x ≡ y = inj (codes_less-total (key x) (key y) c b) in rw same refl
    ]
  ]

  insert_sorted_comm :
      (x y : A) (l : List A)
      → (key x ≡ key y → x ≡ y)
      → insert_sorted by_key x (insert_sorted by_key y l)
        ≡ insert_sorted by_key y (insert_sorted by_key x l)
  insert_sorted_comm x y [] inj = insert_front x y [] inj (alone x) (alone y)
  insert_sorted_comm x y (z ∷ zs) inj = elim (Bool-cases (by_key z x)) [
    | inl b ↦ elim (Bool-cases (by_key z y)) [
      | inl c ↦
          rw (after_smaller x z zs b, after_smaller y z zs c)
            (after_smaller x z (insert_sorted by_key y zs) b
              ∙ (ap (λ t. z ∷ t) (insert_sorted_comm x y zs inj)
                  ∙ sym (after_smaller y z (insert_sorted by_key x zs) c)))
      | inr c ↦
          let d = codes_less-between (key x) (key y) (key z) c b in
          rw (after_smaller x z zs b, before_others y z zs c)
            (after_smaller x y (z ∷ zs) d
              ∙ (ap (λ t. y ∷ t) (after_smaller x z zs b)
                  ∙ sym (before_others y z (insert_sorted by_key x zs) c)))
    ]
    | inr b ↦ elim (Bool-cases (by_key z y)) [
      | inl c ↦
          let d = codes_less-between (key y) (key x) (key z) b c in
          rw (before_others x z zs b, after_smaller y z zs c)
            (before_others x z (insert_sorted by_key y zs) b
              ∙ (ap (λ t. x ∷ t) (sym (after_smaller y z zs c))
                  ∙ sym (after_smaller y x (z ∷ zs) d)))
      | inr c ↦ insert_front x y (z ∷ zs) inj (before_others x z zs b) (before_others y z zs c)
    ]
  ]

  -- Sorting forgets the order of a list whose elements are told apart by their keys.
  pub sort_slice-eq :
      (P : A → Type 0) (inj : (x y : A) → P x → P y → key x ≡ key y → x ≡ y) (xs ys : List A)
      → Permᴰ xs ys
      → All P xs
      → sort_slice by_key xs ≡ sort_slice by_key ys
  unfolding sort_slice
  sort_slice-eq P inj xs ys Permᴰ.nil h = refl
  sort_slice-eq P inj xs ys (Permᴰ.cons {l₁ = us} {l₂ = vs} e d) h =
      λ i. insert_sorted by_key (e i) (sort_slice-eq P inj us vs d h.1 i)
  sort_slice-eq P inj xs ys (Permᴰ.swap {a = a} {b = b} {l = l} e f) h =
      insert_sorted_comm a b (sort_slice by_key l) (inj a b h.0 h.1.0)
      ∙ (λ i. insert_sorted by_key (f i) (insert_sorted by_key (e i) (sort_slice by_key l)))
  sort_slice-eq P inj xs ys (Permᴰ.trans {l₂ = ms} d e) h =
      sort_slice-eq P inj xs ms d h ∙ sort_slice-eq P inj ms ys e (All-Perm P xs ms d h)
