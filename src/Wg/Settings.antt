-- ===== src/Wg/Settings.antt =====
-- internal/wg/diff.go: what `peersEqual` compares.
use seine.Prelude.{
  ◌≡◌, refl, sym, ap, ◌∙◌, ◌⊎◌, ◌↔◌, inl, inr, Bool, true, false, ◌&&◌, ℕ, zero, suc, Option, none,
  some, List, [], ◌∷◌, Eq, arith, All, eq_iff, Bool-cases,
}
use seine.Prelude.Int.{pos, negsuc, beq_ℤ, beq_ℤ_iff}
use seine.Prelude.Sort.{codes, sort_slice}
use seine.Prelude.Order.{sort_slice-Perm, sort_slice-eq, Perm_sym}
use mathlib.Core.List.{Permᴰ}
use seine.External
use seine.External.{Net}
use seine.Spec.Types.{Duration}
use seine.Wg.Types.{Peer, UdpAddr}
use seine.Wg.Diff.{
  normalize_keepalive, all_equal, same_length, prefix_less, udp_addrs_equal, prefix_sets_equal,
  peers_equal,
}

-- Keepalives of one effect: equal, or both off.
abbrev IsOff : Duration → Type 0
IsOff (pos zero) = Unit
IsOff (pos (suc n)) = ⊥
IsOff (negsuc n) = Unit

abbrev pub SameKeepalive : Duration → Duration → Type 0
SameKeepalive a b = (a ≡ b) ⊎ (IsOff a × IsOff b)

-- Valid prefixes are told apart by their texts.
pub record TextLaws (net : Net) : Type 0 where
  pub text_apart :
      (p q : net.Prefix)
      → net.is_valid p ≡ true
      → net.is_valid q ≡ true
      → codes (net.prefix_string p) ≡ codes (net.prefix_string q)
      → p ≡ q

normalize_pos : (n : ℕ) → normalize_keepalive (pos n) ≡ pos n
unfolding normalize_keepalive
normalize_pos n = ground arith

normalize_negsuc : (n : ℕ) → normalize_keepalive (negsuc n) ≡ pos 0
unfolding normalize_keepalive
normalize_negsuc n = ground arith

normalize_off : (d : Duration) → IsOff d → normalize_keepalive d ≡ pos 0
normalize_off (pos zero) h = normalize_pos 0
normalize_off (pos (suc n)) h = absurd h
normalize_off (negsuc n) h = normalize_negsuc n

IsOff-normalized : (d : Duration) → normalize_keepalive d ≡ pos 0 → IsOff d
IsOff-normalized (pos zero) h = tt
IsOff-normalized (pos (suc n)) h =
    let e = (beq_ℤ_iff (pos (suc n)) (pos 0)).1 (sym (normalize_pos (suc n)) ∙ h) in
    absurd (ground arith)
IsOff-normalized (negsuc n) h = tt

normalized_same :
    (a b : Duration) → normalize_keepalive a ≡ normalize_keepalive b → SameKeepalive a b
normalized_same (negsuc a) b h = inr (tt, IsOff-normalized b (sym h ∙ normalize_negsuc a))
normalized_same (pos a) (negsuc b) h = inr (IsOff-normalized (pos a) (h ∙ normalize_negsuc b), tt)
normalized_same (pos a) (pos b) h = inl (sym (normalize_pos a) ∙ (h ∙ normalize_pos b))

keepalive_iff :
    (a b : Duration)
    → (beq_ℤ (normalize_keepalive a) (normalize_keepalive b) ≡ true) ↔ SameKeepalive a b
keepalive_iff a b =
    let same = beq_ℤ_iff (normalize_keepalive a) (normalize_keepalive b) in
    (
      λ h. normalized_same a b (same.0 h),
      λ h. same.1 (elim h [
        | inl e ↦ ap normalize_keepalive e
        | inr o ↦ normalize_off a o.0 ∙ sym (normalize_off b o.1)
      ]),
    )

module _ {A : Type 0} (e : Eq A) where
  all_equal_iff : (xs ys : List A) → (all_equal e xs ys ≡ true) ↔ (xs ≡ ys)
  all_equal_iff [] [] = (λ h. refl, λ h. refl)
  all_equal_iff [] (y ∷ ys) = (λ h. absurd (cc), λ h. absurd (cc))
  all_equal_iff (x ∷ xs) [] = (λ h. absurd (cc), λ h. absurd (cc))
  all_equal_iff (x ∷ xs) (y ∷ ys) = ground (arith, all_equal_iff xs ys, e.beq_iff x y)

same_length_trans :
    {A : Type 0} (xs ys zs : List A)
    → same_length xs ys ≡ true
    → same_length ys zs ≡ true
    → same_length xs zs ≡ true
same_length_trans [] [] zs h k = k
same_length_trans [] (y ∷ ys) zs h k = absurd (cc)
same_length_trans (x ∷ xs) [] zs h k = absurd (cc)
same_length_trans (x ∷ xs) (y ∷ ys) [] h k = absurd (cc)
same_length_trans (x ∷ xs) (y ∷ ys) (z ∷ zs) h k = same_length_trans xs ys zs h k

same_length_refl : {A : Type 0} (xs : List A) → same_length xs xs ≡ true
same_length_refl [] = refl
same_length_refl (x ∷ xs) = same_length_refl xs

same_length-Perm : {A : Type 0} (xs ys : List A) → Permᴰ xs ys → same_length xs ys ≡ true
same_length-Perm xs ys Permᴰ.nil = refl
same_length-Perm xs ys (Permᴰ.cons {l₁ = us} {l₂ = vs} e d) = same_length-Perm us vs d
same_length-Perm xs ys (Permᴰ.swap {l = l} e f) = same_length_refl l
same_length-Perm xs ys (Permᴰ.trans {l₂ = ms} d e) =
    same_length_trans xs ms ys (same_length-Perm xs ms d) (same_length-Perm ms ys e)

and_iff : (a b : Bool) → (a && b ≡ true) ↔ ((a ≡ true) × (b ≡ true))
and_iff true b = (λ h. (refl, h), λ h. h.1)
and_iff false b = (λ h. absurd (cc), λ h. h.0)

module _ (net : Net) where
  open net use {Prefix}

  abbrev pub IsValid : Prefix → Type 0
  IsValid p = net.is_valid p ≡ true

  -- No endpoint on either side, or one address: port, IP and zone.
  abbrev pub SameEndpoint : Option (UdpAddr net) → Option (UdpAddr net) → Type 0
  SameEndpoint none none = Unit
  SameEndpoint none (some b) = ⊥
  SameEndpoint (some a) none = ⊥
  SameEndpoint (some a) (some b) =
      (a.port ≡ b.port) × (net.ip_equal a.ip b.ip ≡ true) × (a.zone ≡ b.zone)

  endpoint_iff : (a b : Option (UdpAddr net)) → (udp_addrs_equal net a b ≡ true) ↔ SameEndpoint a b
  unfolding udp_addrs_equal
  endpoint_iff none none = (λ h. tt, λ h. refl)
  endpoint_iff none (some b) = (λ h. absurd (cc), λ h. absurd h)
  endpoint_iff (some a) none = (λ h. absurd (cc), λ h. absurd h)
  endpoint_iff (some a) (some b) = ground (arith, beq_ℤ_iff a.port b.port, eq_iff a.zone b.zone)

  abbrev text_key : Prefix → List ℕ
  text_key p = codes (net.prefix_string p)

  abbrev sorted : List Prefix → List Prefix
  sorted = sort_slice (prefix_less net)

  prefix_sets_equal-Perm : (a b : List Prefix) → prefix_sets_equal net a b ≡ true → Permᴰ a b
  unfolding prefix_sets_equal
  prefix_sets_equal-Perm a b h = elim (Bool-cases (same_length a b)) [
    | inr q ↦ absurd (let t : false ≡ true = rw (prefix_sets_equal, q) at h in cc)
    | inl q ↦
        let t : all_equal net.prefix_eq (sorted a) (sorted b) ≡ true =
          rw (prefix_sets_equal, q) at h in
        let same : sorted a ≡ sorted b = (all_equal_iff net.prefix_eq (sorted a) (sorted b)).0 t in
        let left : Permᴰ a (sorted b) = rw (← same) (sort_slice-Perm text_key a) in
        Permᴰ.trans left (Perm_sym b (sorted b) (sort_slice-Perm text_key b))
  ]

  Perm-prefix_sets_equal :
      (a b : List Prefix)
      → TextLaws net
      → All IsValid a
      → Permᴰ a b
      → prefix_sets_equal net a b ≡ true
  unfolding prefix_sets_equal
  Perm-prefix_sets_equal a b laws v d =
      let same : sorted a ≡ sorted b = sort_slice-eq text_key IsValid laws.text_apart a b d v in
      rw (prefix_sets_equal, same_length-Perm a b d)
        ((all_equal_iff net.prefix_eq (sorted a) (sorted b)).1 same)

module _ (net : Net) (ks : External.Keys) where
  -- Two peers to be configured alike: key, endpoint, allowed prefixes in any order, and keepalive.
  pub record SameSettings (a b : Peer net ks) : Type 0 where
    pub public_key : a.public_key ≡ b.public_key
    pub endpoint : SameEndpoint net a.endpoint b.endpoint
    pub allowed_ips : Permᴰ a.allowed_ips b.allowed_ips
    pub keepalive : SameKeepalive a.persistent_keepalive b.persistent_keepalive

  -- Peers that `peersEqual` holds for have the same settings.
  pub peers_equal-SameSettings :
      (a b : Peer net ks) → peers_equal net ks a b ≡ true → SameSettings a b
  unfolding peers_equal
  peers_equal-SameSettings a b h =
      let (k, h1) = (and_iff (ks.key_eq.beq a.public_key b.public_key) _).0 h in
      let (e, h2) = (and_iff (udp_addrs_equal net a.endpoint b.endpoint) _).0 h1 in
      let (p, d) = (and_iff (prefix_sets_equal net a.allowed_ips b.allowed_ips) _).0 h2 in
      record {
        public_key = (ks.key_eq.beq_iff a.public_key b.public_key).0 k;
        endpoint = (endpoint_iff net a.endpoint b.endpoint).0 e;
        allowed_ips = prefix_sets_equal-Perm net a.allowed_ips b.allowed_ips p;
        keepalive = (keepalive_iff a.persistent_keepalive b.persistent_keepalive).0 d;
      }

  -- And the converse, where the prefixes are valid.
  pub SameSettings-peers_equal :
      (a b : Peer net ks)
      → TextLaws net
      → All (IsValid net) a.allowed_ips
      → SameSettings a b
      → peers_equal net ks a b ≡ true
  unfolding peers_equal
  SameSettings-peers_equal a b laws v s = (and_iff (ks.key_eq.beq a.public_key b.public_key) _).1 (
    (ks.key_eq.beq_iff a.public_key b.public_key).1 s.public_key,
    (and_iff (udp_addrs_equal net a.endpoint b.endpoint) _).1 (
      (endpoint_iff net a.endpoint b.endpoint).1 s.endpoint,
      (and_iff (prefix_sets_equal net a.allowed_ips b.allowed_ips) _).1 (
        Perm-prefix_sets_equal net a.allowed_ips b.allowed_ips laws v s.allowed_ips,
        (keepalive_iff a.persistent_keepalive b.persistent_keepalive).1 s.keepalive,
      ),
    ),
  )
