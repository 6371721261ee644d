-- ===== src/Spec/Validate/Names.antt =====
-- internal/spec/validate.go: `validName`, the expression `^[a-z0-9]([-a-z0-9]{0,61}[a-z0-9])?$`.
use seine.Prelude.{
  ℕ, zero, suc, ◌≤◌, String, ◌≡◌, refl, ◌↔◌, Bool, true, false, ◌&&◌, ◌||◌, List, [], ◌∷◌, arith,
  leb, nat_beq, length, All,
}
use seine.Prelude.Sort.{codes}

-- [a-z0-9]
abbrev pub is_alnum : ℕ → Bool
is_alnum c = (leb b'a' c && leb c b'z') || (leb b'0' c && leb c b'9')

-- [-a-z0-9]
abbrev pub is_label : ℕ → Bool
is_label c = nat_beq c b'-' || is_alnum c

-- `[-a-z0-9]{0,n}[a-z0-9]$`
unfoldable pub label_tail : ℕ → List ℕ → Bool
label_tail n [] = false
label_tail n (c ∷ []) = is_alnum c
label_tail zero (c ∷ d ∷ rest) = false
label_tail (suc n) (c ∷ d ∷ rest) = is_label c && label_tail n (d ∷ rest)

unfoldable pub matches_label : List ℕ → Bool
unfolding label_tail
matches_label [] = false
matches_label (c ∷ []) = is_alnum c
matches_label (c ∷ d ∷ rest) = is_alnum c && label_tail 61 (d ∷ rest)

unfoldable pub valid_name : String → Bool
unfolding matches_label
valid_name s = matches_label (codes s)

abbrev first : List ℕ → ℕ → ℕ
first [] d = d
first (c ∷ cs) d = c

abbrev pub last : List ℕ → ℕ → ℕ
last [] d = d
last (c ∷ cs) d = last cs c

abbrev AreLabels : List ℕ → Type 0
AreLabels = All (λ c. is_label c ≡ true)

alnum→label : (c : ℕ) → is_alnum c ≡ true → is_label c ≡ true
alnum→label c h = ground arith

label_tail_sound :
    (n : ℕ) (d c : ℕ) (cs : List ℕ)
    → label_tail n (c ∷ cs) ≡ true
    → (length cs ≤ n) × AreLabels (c ∷ cs) × (is_alnum (last (c ∷ cs) d) ≡ true)
unfolding label_tail
label_tail_sound n d c [] h = (omega arith, (alnum→label c h, tt), h)
label_tail_sound zero d c (x ∷ cs) h = cc
label_tail_sound (suc n) d c (x ∷ cs) h =
    let (short, labels, ends) = label_tail_sound n c x cs (ground arith) in
    (omega arith, (ground arith, labels), ends)

label_tail_complete :
    (n : ℕ) (d c : ℕ) (cs : List ℕ)
    → length cs ≤ n
    → AreLabels (c ∷ cs)
    → is_alnum (last (c ∷ cs) d) ≡ true
    → label_tail n (c ∷ cs) ≡ true
unfolding label_tail
label_tail_complete n d c [] short labels ends = ends
label_tail_complete zero d c (x ∷ cs) short labels ends = absurd (omega arith)
label_tail_complete (suc n) d c (x ∷ cs) short labels ends =
    let rest = label_tail_complete n c x cs (omega arith) labels.1 ends in rw (labels.0, rest) refl

-- A DNS-1123 label: 1 to 63 characters, each a lower-case letter, a digit or a hyphen, the first and
-- the last no hyphen.
pub record IsLabel (cs : List ℕ) : Type 0 where
  pub nonempty : 1 ≤ length cs
  pub short : length cs ≤ 63
  pub labels : All (λ c. is_label c ≡ true) cs
  pub starts : is_alnum (first cs b'-') ≡ true
  pub ends : is_alnum (last cs b'-') ≡ true

sound : (cs : List ℕ) → matches_label cs ≡ true → IsLabel cs
unfolding matches_label
sound [] h = cc
sound (c ∷ []) h = record {
  nonempty = omega arith;
  short = omega arith;
  labels = (alnum→label c h, tt);
  starts = h;
  ends = h;
}
sound (c ∷ d ∷ cs) h =
    let (short, labels, ends) = label_tail_sound 61 c d cs (ground arith) in
    let starts : is_alnum c ≡ true = ground arith in
    record {
      nonempty = omega arith;
      short = omega arith;
      labels = (alnum→label c starts, labels);
      starts = starts;
      ends = ends;
    }

complete : (cs : List ℕ) → IsLabel cs → matches_label cs ≡ true
unfolding matches_label
complete [] h = absurd (omega arith)
complete (c ∷ []) h = h.starts
complete (c ∷ d ∷ cs) h =
    let rest = label_tail_complete 61 c d cs (omega arith) h.labels.1 h.ends in
    rw (h.starts, rest) refl

-- `validName` accepts a text exactly when it is a DNS-1123 label of at most 63 characters.
pub valid_name_iff : (s : String) → (valid_name s ≡ true) ↔ IsLabel (codes s)
unfolding valid_name
valid_name_iff s = (sound (codes s), complete (codes s))
