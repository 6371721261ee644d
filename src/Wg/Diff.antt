-- ===== src/Wg/Diff.antt =====
-- internal/wg/diff.go. The map of current peers is an association list by public key; the order in
-- which Go ranges over it, which is not determined, is the list's.
use seine.Prelude.{
  Bool, true, false, not, ◌&&◌, Option, none, some, List, [], ◌∷◌, ◌==◌, if◌then◌else◌, lookup,
  member, Eq,
}
use seine.Prelude.Int.{pos, beq_ℤ, ltb_ℤ}
use seine.Prelude.Sort.{sort_slice, string_less}
use seine.External
use seine.External.{Net}
use seine.Spec.Types.{Duration}
use seine.Wg.Types.{Peer, UdpAddr}

pub record Diff (net : Net) (keys : External.Keys) : Type 0 where
  pub added : List (Peer net keys)
  pub updated : List (Peer net keys)
  pub removed : List keys.Key

abbrev pub null {ℓ} : {A : Type ℓ} → List A → Bool
null [] = true
null (x ∷ xs) = false

unfoldable pub normalize_keepalive : Duration → Duration
normalize_keepalive d = if ltb_ℤ d (pos 0) then pos 0 else d

-- `x[i] != y[i]` over two lists of one length
abbrev pub all_equal {ℓ} : {A : Type ℓ} → Eq A → List A → List A → Bool
all_equal e [] [] = true
all_equal e [] (y ∷ ys) = false
all_equal e (x ∷ xs) [] = false
all_equal e (x ∷ xs) (y ∷ ys) = e.beq x y && all_equal e xs ys

abbrev pub same_length {ℓ} : {A : Type ℓ} → List A → List A → Bool
same_length [] [] = true
same_length [] (y ∷ ys) = false
same_length (x ∷ xs) [] = false
same_length (x ∷ xs) (y ∷ ys) = same_length xs ys

module _ (net : Net) where
  open net use {prefix_eq, prefix_string, Prefix, ip_equal}

  unfoldable pub udp_addrs_equal : Option (UdpAddr net) → Option (UdpAddr net) → Bool
  udp_addrs_equal none none = true
  udp_addrs_equal none (some b) = false
  udp_addrs_equal (some a) none = false
  udp_addrs_equal (some a) (some b) =
      beq_ℤ a.port b.port && (ip_equal a.ip b.ip && a.zone == b.zone)

  abbrev pub prefix_less : Prefix → Prefix → Bool
  prefix_less p q = string_less (prefix_string p) (prefix_string q)

  unfoldable pub prefix_sets_equal : List Prefix → List Prefix → Bool
  unfolding sort_slice
  prefix_sets_equal a b =
      if not (same_length a b)
      then false
      else all_equal prefix_eq (sort_slice prefix_less a) (sort_slice prefix_less b)

module _ (net : Net) (keys : External.Keys) where
  open keys use {Key, key_eq}

  unfoldable pub is_empty : Diff net keys → Bool
  is_empty d = null d.added && (null d.updated && null d.removed)

  unfoldable pub peers_equal : Peer net keys → Peer net keys → Bool
  unfolding udp_addrs_equal prefix_sets_equal normalize_keepalive
  peers_equal a b =
      key_eq.beq a.public_key b.public_key
      && (udp_addrs_equal net a.endpoint b.endpoint
          && (prefix_sets_equal net a.allowed_ips b.allowed_ips
              && beq_ℤ (normalize_keepalive a.persistent_keepalive)
                  (normalize_keepalive b.persistent_keepalive)))

  -- the loop over `desired`; its third result is the map `seen`
  unfoldable pub classify :
      List (Key × Peer net keys)
      → List (Peer net keys)
      → List (Peer net keys) × List (Peer net keys) × List Key
  unfolding peers_equal
  classify current [] = ([], [], [])
  classify current (want ∷ rest) =
      let others = classify current rest in
      elim (lookup key_eq want.public_key current) [
        | none ↦ (want ∷ others.0, others.1, want.public_key ∷ others.2)
        | some have ↦ (
          others.0,
          (if peers_equal have want then others.1 else want ∷ others.1),
          want.public_key ∷ others.2,
        )
      ]

  -- the loop over `current`
  unfoldable pub stale : List Key → List (Key × Peer net keys) → List Key
  stale seen [] = []
  stale seen ((k, p) ∷ rest) =
      let others = stale seen rest in if member key_eq k seen then others else k ∷ others

  unfoldable pub compute_diff : List (Key × Peer net keys) → List (Peer net keys) → Diff net keys
  unfolding classify stale
  compute_diff current desired =
      let wanted = classify current desired in
      record { added = wanted.0; updated = wanted.1; removed = stale wanted.2 current }
