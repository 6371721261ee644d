-- ===== src/Wg/Changes.antt =====
-- internal/wg/diff.go: what `computeDiff` adds, updates and removes.
use seine.Prelude.{
  ◌≡◌, refl, ◌↔◌, inl, inr, true, false, none, some, List, [], ◌∷◌, map, arith, All, In, member,
  member→In, In→member, lookup, keys, Bool-cases, Option-cases, if◌then◌else◌,
}
use seine.External
use seine.External.{Net}
use seine.Wg.Types.{Peer}
use seine.Wg.Settings.{
  TextLaws, IsValid, SameSettings, peers_equal-SameSettings, SameSettings-peers_equal,
}
use seine.Wg.Diff.{peers_equal, classify, stale, compute_diff}

module _ (net : Net) (ks : External.Keys) where
  open ks use {Key, key_eq}

  abbrev pub peer_key : Peer net ks → Key
  peer_key p = p.public_key

  -- A device's peer under the key of a wanted one, and the comparison of the two.
  pub record Unequal (current : List (Key × Peer net ks)) (want : Peer net ks) : Type 0 where
    pub have : Peer net ks
    pub found : lookup key_eq want.public_key current ≡ some have
    pub unlike : peers_equal net ks have want ≡ false

  -- A device's peer under the key of a wanted one that has other settings than it.
  pub record Differs (current : List (Key × Peer net ks)) (want : Peer net ks) : Type 0 where
    pub have : Peer net ks
    pub found : lookup key_eq want.public_key current ≡ some have
    pub unlike : ¬ SameSettings net ks have want

  module _ (current : List (Key × Peer net ks)) where
    abbrev IsNew : Peer net ks → Type 0
    IsNew want = lookup key_eq want.public_key current ≡ none

    seen_keys :
        (desired : List (Peer net ks)) → (classify net ks current desired).2 ≡ map peer_key desired
    unfolding classify
    seen_keys [] = refl
    seen_keys (want ∷ rest) = ground (arith, seen_keys rest)

    classify-new :
        (want : Peer net ks) (rest : List (Peer net ks))
        → IsNew want
        → classify net ks current (want ∷ rest) ≡ (
          want ∷ (classify net ks current rest).0,
          (classify net ks current rest).1,
          want.public_key ∷ (classify net ks current rest).2,
        )
    unfolding classify
    classify-new want rest e = rw (classify, e) refl

    classify-known :
        (want : Peer net ks) (rest : List (Peer net ks)) (have : Peer net ks)
        → lookup key_eq want.public_key current ≡ some have
        → classify net ks current (want ∷ rest) ≡ (
          (classify net ks current rest).0,
          (if peers_equal net ks have want
              then (classify net ks current rest).1
              else want ∷ (classify net ks current rest).1),
          want.public_key ∷ (classify net ks current rest).2,
        )
    unfolding classify
    classify-known want rest have e = rw (classify, e) refl

    added_iff :
        (desired : List (Peer net ks)) (p : Peer net ks)
        → In p (classify net ks current desired).0 ↔ (In p desired × IsNew p)
    unfolding classify
    added_iff [] p = (λ h. absurd h, λ h. h.0)
    added_iff (want ∷ rest) p =
        let ih = added_iff rest p in
        elim (Option-cases (lookup key_eq want.public_key current)) [
          | inl e ↦ rw (classify-new want rest e) (
            λ h. elim h [ inl s ↦ (inl s, rw s e) | inr m ↦ let (a, b) = ih.0 m in (inr a, b) ],
            λ h. elim h.0 [ inl s ↦ inl s | inr m ↦ inr (ih.1 (m, h.1)) ],
          )
          | inr (have, e) ↦ rw (classify-known want rest have e) (
            λ h. let (a, b) = ih.0 h in (inr a, b),
            λ h. elim h.0 [
              | inl s ↦ absurd (
                  let known : lookup key_eq p.public_key current ≡ some have = rw s e in
                  let gone = h.1 in cc)
              | inr m ↦ ih.1 (m, h.1)
            ],
          )
        ]

    agrees_with_found :
        (want have : Peer net ks) (d : Unequal current want)
        → lookup key_eq want.public_key current ≡ some have
        → peers_equal net ks have want ≡ false
    agrees_with_found want have d e =
        let f = d.found in let same : d.have ≡ have = ground arith in rw (← same) d.unlike

    updated_iff :
        (desired : List (Peer net ks)) (p : Peer net ks)
        → In p (classify net ks current desired).1 ↔ (In p desired × Unequal current p)
    unfolding classify
    updated_iff [] p = (λ h. absurd h, λ h. h.0)
    updated_iff (want ∷ rest) p =
        let ih = updated_iff rest p in
        elim (Option-cases (lookup key_eq want.public_key current)) [
          | inl e ↦ rw (classify-new want rest e) (
            λ h. let (a, b) = ih.0 h in (inr a, b),
            λ h. elim h.0 [
              | inl s ↦ absurd (
                  let gone : lookup key_eq p.public_key current ≡ none = rw s e in
                  let f = h.1.found in cc)
              | inr m ↦ ih.1 (m, h.1)
            ],
          )
          | inr (have, e) ↦ elim (Bool-cases (peers_equal net ks have want)) [
            | inl q ↦
                rw (classify-known want rest have e, q)
                  (
                    λ h. let (a, b) = ih.0 h in (inr a, b),
                    λ h. elim h.0 [
                      | inl s ↦ absurd (
                          let no_change = agrees_with_found p have h.1 (rw s e) in
                          let all : peers_equal net ks have p ≡ true = rw s q in cc)
                      | inr m ↦ ih.1 (m, h.1)
                    ],
                  )
            | inr q ↦
                rw (classify-known want rest have e, q)
                  (
                    λ h. elim h [
                      | inl s ↦ (inl s, record { have = have; found = rw s e; unlike = rw s q })
                      | inr m ↦ let (a, b) = ih.0 m in (inr a, b)
                    ],
                    λ h. elim h.0 [ inl s ↦ inl s | inr m ↦ inr (ih.1 (m, h.1)) ],
                  )
          ]
        ]

  removed_iff :
      (seen : List Key) (current : List (Key × Peer net ks)) (k : Key)
      → In k (stale net ks seen current) ↔ (In k (keys current) × ¬ In k seen)
  unfolding stale
  removed_iff seen [] k = (λ h. absurd h, λ h. h.0)
  removed_iff seen ((x, p) ∷ rest) k =
      let ih = removed_iff seen rest k in
      elim (Bool-cases (member key_eq x seen)) [
        | inl q ↦ rw q (
          λ h. let (a, b) = ih.0 h in (inr a, b),
          λ h. elim h.0 [
            | inl s ↦ absurd (h.1 (rw s (member→In key_eq x seen q)))
            | inr m ↦ ih.1 (m, h.1)
          ],
        )
        | inr q ↦ rw q (
          λ h. elim h [
            | inl s ↦ (inl s, λ m. let hit = In→member key_eq x seen (rw (← s) m) in cc)
            | inr m ↦ let (a, b) = ih.0 m in (inr a, b)
          ],
          λ h. elim h.0 [ inl s ↦ inl s | inr m ↦ inr (ih.1 (m, h.1)) ],
        )
      ]

  pub compute_diff_parts :
      (current : List (Key × Peer net ks)) (desired : List (Peer net ks))
      → ((p : Peer net ks)
          → In p (compute_diff net ks current desired).added
            ↔ (In p desired × (lookup key_eq p.public_key current ≡ none)))
        × ((p : Peer net ks)
            → In p (compute_diff net ks current desired).updated
              ↔ (In p desired × Unequal current p))
        × ((k : Key)
            → In k (compute_diff net ks current desired).removed
              ↔ (In k (keys current) × ¬ In k (map peer_key desired)))
  unfolding compute_diff
  compute_diff_parts current desired = (
    λ p. added_iff current desired p,
    λ p. updated_iff current desired p,
    λ k. rw (seen_keys current desired) (removed_iff (map peer_key desired) current k),
  )

  -- The device's peers, by key, have valid prefixes.
  abbrev pub AreValid : List (Key × Peer net ks) → Type 0
  AreValid current = All (λ (e : Key × Peer net ks). All (IsValid net) e.1.allowed_ips) current

  found-IsValid :
      (k : Key) (current : List (Key × Peer net ks)) (p : Peer net ks)
      → AreValid current
      → lookup key_eq k current ≡ some p
      → All (IsValid net) p.allowed_ips
  found-IsValid k [] p v h = absurd (cc)
  found-IsValid k ((j, q) ∷ rest) p v h = elim (Bool-cases (key_eq.beq j k)) [
    | inl b ↦ let t : some q ≡ some p = rw b at h in let e : q ≡ p = cc in rw (← e) v.0
    | inr b ↦ let t : lookup key_eq k rest ≡ some p = rw b at h in found-IsValid k rest p v.1 t
  ]

  Differs-iff :
      (current : List (Key × Peer net ks)) (want : Peer net ks)
      → TextLaws net
      → AreValid current
      → Unequal current want ↔ Differs current want
  Differs-iff current want laws v = (
    λ u. record {
      have = u.have;
      found = u.found;
      unlike = λ same.
          let valid = found-IsValid want.public_key current u.have v u.found in
          let equal = SameSettings-peers_equal net ks u.have want laws valid same in
          let other = u.unlike in cc;
    },
    λ d. record {
      have = d.have;
      found = d.found;
      unlike = elim (Bool-cases (peers_equal net ks d.have want)) [
        | inl q ↦ absurd (d.unlike (peers_equal-SameSettings net ks d.have want q))
        | inr q ↦ q
      ];
    },
  )

  -- The diff adds exactly the wanted peers whose keys the device lacks; it updates exactly those whose
  -- key the device has with other settings, that is for a peer with another key of its own, another
  -- endpoint, other allowed prefixes up to their order, or another keepalive, where all that are not
  -- positive are one; and it removes
  -- exactly the device's keys that no wanted peer has. It holds where the device's prefixes are valid
  -- and the texts of valid prefixes tell them apart.
  pub compute_diff_iff :
      (current : List (Key × Peer net ks)) (desired : List (Peer net ks))
      → TextLaws net
      → AreValid current
      → ((p : Peer net ks)
          → In p (compute_diff net ks current desired).added
            ↔ (In p desired × (lookup key_eq p.public_key current ≡ none)))
        × ((p : Peer net ks)
            → In p (compute_diff net ks current desired).updated
              ↔ (In p desired × Differs current p))
        × ((k : Key)
            → In k (compute_diff net ks current desired).removed
              ↔ (In k (keys current) × ¬ In k (map peer_key desired)))
  compute_diff_iff current desired laws v =
      let parts = compute_diff_parts current desired in
      (
        parts.0,
        λ p.
            let differs = Differs-iff current p laws v in
            (
              λ m. let (l, u) = (parts.1 p).0 m in (l, differs.0 u),
              λ h. (parts.1 p).1 (h.0, differs.1 h.1),
            ),
        parts.2,
      )
