-- ===== src/Wg/Applied.antt =====
-- internal/wg/iface_linux.go: the peers of a device after `ApplyPeers`.
use seine.Prelude.{
  ◌≡◌, refl, sym, ◌∙◌, ap, ◌↔◌, ◌⊎◌, inl, inr, Bool, true, false, not, ◌&&◌, ◌||◌, Option, none,
  some, List, [], ◌∷◌, ◌++◌, map, arith, In, member, member→In, In→member, lookup, keys, In-map,
  In_of_map, Bool-cases, Option-cases, if◌then◌else◌,
}
use seine.External
use seine.External.{Net}
use seine.Wg.Types.{Peer}
use seine.Wg.Diff.{Diff, null, compute_diff, is_empty}
use seine.Wg.Changes.{peer_key, compute_diff_parts}
use seine.Wg.Iface.{
  WgPeer, PeerConfig, read_device, configure_peers, peer_to_config, removal, current_peers,
  wg_peer_to_domain, peer_configs, apply_peers,
}

module _ (net : Net) (ks : External.Keys) where
  open ks use {Key, key_eq}

  abbrev pub wg_key : WgPeer net ks → Key
  wg_key p = p.public_key

  -- Whether a device that has the key or not has it after the configurations, in their order.
  abbrev pub present : Key → List (PeerConfig net ks) → Bool → Bool
  present k [] b = b
  present k (c ∷ cs) b = present k cs (if key_eq.beq k c.public_key then not c.remove else b)

  present-append :
      (k : Key) (cs ds : List (PeerConfig net ks)) (b : Bool)
      → present k (cs ++ ds) b ≡ present k ds (present k cs b)
  present-append k [] ds b = refl
  present-append k (c ∷ cs) ds b =
      present-append k cs ds (if key_eq.beq k c.public_key then not c.remove else b)

  raised : (e m b : Bool) → (m || (if e then true else b)) ≡ ((e || m) || b)
  raised true true b = refl
  raised true false b = refl
  raised false m b = refl

  cleared : (e m b : Bool) → (not m && (if e then false else b)) ≡ (not (e || m) && b)
  cleared true true b = refl
  cleared true false b = refl
  cleared false m b = refl

  present-wanted :
      (k : Key) (replace : Bool) (ps : List (Peer net ks)) (b : Bool)
      → present k (map (λ p. peer_to_config net ks p replace) ps) b
        ≡ (member key_eq k (map (peer_key net ks) ps) || b)
  unfolding peer_to_config
  present-wanted k replace [] b = refl
  present-wanted k replace (p ∷ ps) b =
      present-wanted k replace ps (if key_eq.beq k p.public_key then true else b)
      ∙ raised (key_eq.beq k p.public_key) (member key_eq k (map (peer_key net ks) ps)) b

  present-removal :
      (k : Key) (rs : List Key) (b : Bool)
      → present k (map (removal net ks) rs) b ≡ (not (member key_eq k rs) && b)
  unfolding removal
  present-removal k [] b = refl
  present-removal k (r ∷ rs) b =
      present-removal k rs (if key_eq.beq k r then false else b)
      ∙ cleared (key_eq.beq k r) (member key_eq k rs) b

  current_peers-keys :
      (k : Key) (acc : List (Key × Peer net ks)) (ps : List (WgPeer net ks))
      → member key_eq k (keys (current_peers net ks acc ps))
        ≡ (member key_eq k (map wg_key ps) || member key_eq k (keys acc))
  unfolding current_peers
  current_peers-keys k acc [] = refl
  current_peers-keys k acc (p ∷ ps) =
      let ih = current_peers-keys k ((p.public_key, wg_peer_to_domain net ks p) ∷ acc) ps in
      ground (arith, ih)

  -- What the kernel documents: a configuration of a peer adds or changes it, or removes it, and those
  -- of a call take effect in order.
  pub record DeviceLaws {S : Type 0} (device : S → Option (List (WgPeer net ks)))
      (configure_device : List (PeerConfig net ks) → S → Bool × S) : Type 0 where
    pub keys_after :
        (cs : List (PeerConfig net ks)) (s s' : S) (ps : List (WgPeer net ks))
        → configure_device cs s ≡ (true, s')
        → device s ≡ some ps
        → (ps' : List (WgPeer net ks)) × (device s' ≡ some ps')
          × ((k : Key)
              → member key_eq k (map wg_key ps') ≡ present k cs (member key_eq k (map wg_key ps)))

  same_truth : (a b : Bool) → (a ≡ true → b ≡ true) → (b ≡ true → a ≡ true) → a ≡ b
  same_truth true b f g = sym (f refl)
  same_truth false true f g = g refl
  same_truth false false f g = refl

  balance :
      (removed updated added old want : Bool)
      → (added ≡ true → want ≡ true)
      → (updated ≡ true → want ≡ true)
      → (removed ≡ true → want ≡ true → ⊥)
      → (old ≡ true → want ≡ false → removed ≡ true)
      → (want ≡ true → (old ≡ true) ⊎ (added ≡ true))
      → (not removed && (updated || (added || old))) ≡ want
  balance true updated added old true a u r o w = absurd (r refl refl)
  balance true updated added old false a u r o w = refl
  balance false true added old want a u r o w = sym (u refl)
  balance false false true old want a u r o w = sym (a refl)
  balance false false false true true a u r o w = refl
  balance false false false true false a u r o w = sym (o refl refl)
  balance false false false false true a u r o w = elim (w refl) [ inl e ↦ e | inr e ↦ e ]
  balance false false false false false a u r o w = refl

  wanted_of :
      (k : Key) (desired ps : List (Peer net ks))
      → ((p : Peer net ks) → In p ps → In p desired)
      → member key_eq k (map (peer_key net ks) ps) ≡ true
      → member key_eq k (map (peer_key net ks) desired) ≡ true
  wanted_of k desired ps sub h =
      let (p, m, e) =
        In_of_map (peer_key net ks) k ps (member→In key_eq k (map (peer_key net ks) ps) h) in
      In→member key_eq k (map (peer_key net ks) desired)
        (rw e (In-map (peer_key net ks) p desired (sub p m)))

  lookup-some-In :
      (k : Key) (m : List (Key × Peer net ks)) {v : Peer net ks}
      → lookup key_eq k m ≡ some v
      → In k (keys m)
  lookup-some-In k [] h = absurd (cc)
  lookup-some-In k ((j, x) ∷ m) h = elim (Bool-cases (key_eq.beq j k)) [
    | inl e ↦ inl (sym ((key_eq.beq_iff j k).0 e))
    | inr e ↦ inr (lookup-some-In k m (rw e at h))
  ]

  -- A wanted key is the device's or is added.
  old_or_added :
      (k : Key) (current : List (Key × Peer net ks)) (desired : List (Peer net ks))
      → member key_eq k (map (peer_key net ks) desired) ≡ true
      → (member key_eq k (keys current) ≡ true)
        ⊎ (member key_eq k (map (peer_key net ks) (compute_diff net ks current desired).added)
            ≡ true)
  old_or_added k current desired h =
      let (p, m, e) =
        In_of_map (peer_key net ks) k desired
          (member→In key_eq k (map (peer_key net ks) desired) h) in
      elim (Option-cases (lookup key_eq p.public_key current)) [
        | inr (have, q) ↦
            inl (In→member key_eq k (keys current) (rw e (lookup-some-In p.public_key current q)))
        | inl q ↦
            let add = ((compute_diff_parts net ks current desired).0 p).1 (m, q) in
            inr (
              In→member key_eq k _
                (rw e (In-map (peer_key net ks) p (compute_diff net ks current desired).added add)))
      ]

  -- The configurations of the diff leave exactly the wanted keys.
  present-peer_configs :
      (k : Key) (current : List (Key × Peer net ks)) (desired : List (Peer net ks))
      → present k
          (peer_configs net ks (compute_diff net ks current desired))
          (member key_eq k (keys current))
        ≡ member key_eq k (map (peer_key net ks) desired)
  unfolding peer_configs
  present-peer_configs k current desired =
      let diff = compute_diff net ks current desired in
      let old = member key_eq k (keys current) in
      let laws = compute_diff_parts net ks current desired in
      let want = member key_eq k (map (peer_key net ks) desired) in
      let added = member key_eq k (map (peer_key net ks) diff.added) in
      let updated = member key_eq k (map (peer_key net ks) diff.updated) in
      let removed = member key_eq k diff.removed in
      let sum : present k (peer_configs net ks diff) old
          ≡ (not removed && (updated || (added || old))) =
        present-append k (map (λ p. peer_to_config net ks p false) diff.added) _ old
        ∙ (present-append k (map (λ p. peer_to_config net ks p true) diff.updated) _ _
            ∙ (present-removal k diff.removed _
                ∙ ap (λ b. not removed && b)
                    (present-wanted k true diff.updated _
                      ∙ ap (λ b. updated || b) (present-wanted k false diff.added old)))) in
      sum
      ∙ balance removed updated added old want
          (λ h. wanted_of k desired diff.added (λ p m. ((laws.0 p).0 m).0) h)
          (λ h. wanted_of k desired diff.updated (λ p m. ((laws.1 p).0 m).0) h)
          (λ h w.
            ((laws.2 k).0 (member→In key_eq k diff.removed h)).1
              (member→In key_eq k (map (peer_key net ks) desired) w))
          (λ h w. In→member key_eq k diff.removed (
            (laws.2 k).1 (
              member→In key_eq k (keys current) h,
              λ m. (let x = In→member key_eq k (map (peer_key net ks) desired) m in cc),
            )))
          (old_or_added k current desired)

  null-nil {ℓ} : {A : Type ℓ} (xs : List A) → null xs ≡ true → xs ≡ []
  null-nil [] h = refl
  null-nil (x ∷ xs) h = absurd (cc)

  no_configs : (diff : Diff net ks) → is_empty net ks diff ≡ true → peer_configs net ks diff ≡ []
  unfolding is_empty peer_configs
  no_configs diff h =
      let a = null-nil diff.added (ground arith) in
      let u = null-nil diff.updated (ground arith) in
      let r = null-nil diff.removed (ground arith) in rw (a, u, r) refl

  reached :
      (k : Key) (peers : List (WgPeer net ks)) (desired : List (Peer net ks))
      → present k
          (peer_configs net ks (compute_diff net ks (current_peers net ks [] peers) desired))
          (member key_eq k (map wg_key peers))
        ≡ member key_eq k (map (peer_key net ks) desired)
  reached k peers desired =
      let current = current_peers net ks [] peers in
      let same : member key_eq k (map wg_key peers) ≡ member key_eq k (keys current) =
        (let held = current_peers-keys k [] peers in ground arith) in
      ap (present k (peer_configs net ks (compute_diff net ks current desired))) same
      ∙ present-peer_configs k current desired

  In_same :
      (k : Key) (xs ys : List Key) → member key_eq k xs ≡ member key_eq k ys → In k xs ↔ In k ys
  In_same k xs ys e = (
    λ h. member→In key_eq k ys (sym e ∙ In→member key_eq k xs h),
    λ h. member→In key_eq k xs (e ∙ In→member key_eq k ys h),
  )

  module _ {S : Type 0} (device : S → Option (List (WgPeer net ks)))
      (configure_device : List (PeerConfig net ks) → S → Bool × S)
      (laws : DeviceLaws device configure_device) where
    -- An `ApplyPeers` that reports no error leaves the device with peers under exactly the public keys
    -- of the wanted ones.
    pub apply_peers-keys :
        (desired : List (Peer net ks)) (s s' : S) (diff : Diff net ks)
        → apply_peers net ks device configure_device desired s ≡ (diff, none, s')
        → (ps : List (WgPeer net ks)) × (device s' ≡ some ps)
          × ((k : Key) → In k (map wg_key ps) ↔ In k (map (peer_key net ks) desired))
    unfolding apply_peers
    apply_peers-keys desired s s' diff h = elim (Option-cases (device s)) [
      | inl p ↦
          absurd (let x : some read_device ≡ none = ap (λ r. r.1) (rw (apply_peers, p) at h) in cc)
      | inr (peers, p) ↦
          let planned = compute_diff net ks (current_peers net ks [] peers) desired in
          let cs = peer_configs net ks planned in
          elim (Bool-cases (is_empty net ks planned)) [
            | inl e ↦
                let same : s ≡ s' = ap (λ r. r.2) (rw (apply_peers, p, e) at h) in
                (
                  peers,
                  rw (← same) p,
                  λ k. In_same k (map wg_key peers) (map (peer_key net ks) desired) (
                      ap (λ c. present k c (member key_eq k (map wg_key peers)))
                        (sym (no_configs planned e))
                      ∙ reached k peers desired),
                )
            | inr e ↦ elim (Bool-cases (configure_device cs s).0) [
              | inr f ↦ absurd (
                  let x : some configure_peers ≡ none =
                    ap (λ r. r.1) (rw (apply_peers, p, e, f) at h) in
                  cc)
              | inl f ↦
                  let same : (configure_device cs s).1 ≡ s' =
                    ap (λ r. r.2) (rw (apply_peers, p, e, f) at h) in
                  let done : configure_device cs s ≡ (true, s') = λ i. (f i, same i) in
                  let (ps, seen, after) = laws.keys_after cs s s' peers done p in
                  (
                    ps,
                    seen,
                    λ k.
                        In_same k (map wg_key ps) (map (peer_key net ks) desired)
                          (after k ∙ reached k peers desired),
                  )
            ]
          ]
    ]
