-- ===== src/Wg/Provision.antt =====
-- internal/wg/iface_linux.go: what `Up` and `Down` leave in the kernel.
use seine.Prelude.{
  String, ◌≡◌, refl, sym, ◌∙◌, ap, ◌⊎◌, inl, inr, Bool, true, false, Option, none, some, Bool-cases,
  Option-cases,
}
use seine.Prelude.Int.{ℤ, pos, beq_ℤ, beq_ℤ_iff, ltb_ℤ}
use seine.Prelude.Result.{Result, ok, err}
use seine.External
use seine.External.{Net}
use seine.Wg.Types.{UpOptions}
use seine.Wg.Link.{
  Kernel, DeviceConfig, LinkError, Lookup, found, not_found, lookup_failed, set_mtu, configure,
  set_address, link_up, parse_addr, link_lookup, link_del, done, and_then, device_config,
  ensure_link, relookup, link_attrs, apply_mtu, apply_address, netlink_addr_from_prefix, provision,
  up, down,
}

-- An interface as the kernel has it.
pub record View (Key NlAddr : Type 0) : Type 0 where
  pub mtu : ℤ
  pub private_key : Option Key
  pub listen_port : ℤ
  pub has_address : NlAddr → Bool
  pub is_up : Bool

-- What the kernel documents for each call that succeeds: the one thing that it changes. A port 0
-- lets the kernel choose one.
pub record LinkLaws {keys : External.Keys} (kernel : Kernel keys) : Type 0 where
  pub view : String → kernel.State → Option (View keys.Key kernel.NlAddr)
  pub name_of : kernel.Link → String
  pub view_of_found :
      (name : String) (l : kernel.Link) (s : kernel.State)
      → kernel.link_by_name name s ≡ found l
      → (name_of l ≡ name)
        × (v : View keys.Key kernel.NlAddr) × (view name s ≡ some v)
        × (v.mtu ≡ kernel.link_mtu l)
  pub view_of_absent :
      (name : String) (s : kernel.State)
      → kernel.link_by_name name s ≡ not_found
      → view name s ≡ none
  pub absent_of_view :
      (name : String) (s : kernel.State)
      → view name s ≡ none
      → kernel.link_by_name name s ≡ not_found
  pub view_of_mtu :
      (l : kernel.Link) (m : ℤ) (s s' : kernel.State) (v : View keys.Key kernel.NlAddr)
      → kernel.link_set_mtu l m s ≡ (true, s')
      → view (name_of l) s ≡ some v
      → view (name_of l) s' ≡ some (record v { mtu = m })
  pub view_of_device :
      (name : String) (c : DeviceConfig keys) (s s' : kernel.State)
      (v : View keys.Key kernel.NlAddr)
      → kernel.configure_device name c s ≡ (true, s')
      → view name s ≡ some v
      → (port : ℤ) × (view name s'
          ≡ some (record v { private_key = some c.private_key; listen_port = port }))
        × ((c.listen_port ≡ pos 0) ⊎ (port ≡ c.listen_port))
  pub view_of_address :
      (l : kernel.Link) (a : kernel.NlAddr) (s s' : kernel.State) (v : View keys.Key kernel.NlAddr)
      → kernel.addr_replace l a s ≡ (true, s')
      → view (name_of l) s ≡ some v
      → (h : kernel.NlAddr → Bool) × (view (name_of l) s' ≡ some (record v { has_address = h }))
        × (h a ≡ true)
  pub view_of_up :
      (l : kernel.Link) (s s' : kernel.State) (v : View keys.Key kernel.NlAddr)
      → kernel.link_set_up l s ≡ (true, s')
      → view (name_of l) s ≡ some v
      → view (name_of l) s' ≡ some (record v { is_up = true })
  pub view_of_del :
      (l : kernel.Link) (s s' : kernel.State)
      → kernel.link_del l s ≡ (true, s')
      → view (name_of l) s' ≡ none

module _ (net : Net) (keys : External.Keys) (kernel : Kernel keys) (laws : LinkLaws kernel) where
  open kernel use {State, Link, NlAddr}
  open laws use {view, name_of}

  -- The interface is there, up, with the key, and with the MTU, the port and the address that the
  -- options set.
  pub record IsProvisioned (name : String) (opts : UpOptions net keys) (s : State) : Type 0 where
    pub now : View keys.Key NlAddr
    pub there : view name s ≡ some now
    pub up : now.is_up ≡ true
    pub key : now.private_key ≡ some opts.private_key
    pub mtu : (ltb_ℤ (pos 0) opts.mtu ≡ false) ⊎ (now.mtu ≡ opts.mtu)
    pub port : (opts.listen_port ≡ pos 0) ⊎ (now.listen_port ≡ opts.listen_port)
    pub address :
        (net.is_valid opts.address ≡ false)
        ⊎ ((a : NlAddr) × (netlink_addr_from_prefix net keys kernel opts.address ≡ some a)
            × (now.has_address a ≡ true))

  done-none :
      (e : LinkError) (r : Bool × State) {s' : State}
      → done net keys kernel e r ≡ (none, s')
      → r ≡ (true, s')
  done-none e (true, s) h = ap (λ r. (true, r.1)) h
  done-none e (false, s) h = absurd (let x : some e ≡ none = ap (λ r. r.0) h in cc)

  and_then-none :
      (r : Option LinkError × State) (next : State → Option LinkError × State) {s' : State}
      → and_then net keys kernel r next ≡ (none, s')
      → (s1 : State) × (r ≡ (none, s1)) × (next s1 ≡ (none, s'))
  and_then-none (none, s) next h = (s, refl, h)
  and_then-none (some e, s) next h = absurd (let x : some e ≡ none = ap (λ r. r.0) h in cc)

  apply_mtu-none :
      (l : Link) (m : ℤ) (s s' : State) (v : View keys.Key NlAddr)
      → apply_mtu net keys kernel l m s ≡ (none, s')
      → view (name_of l) s ≡ some v
      → v.mtu ≡ kernel.link_mtu l
      → (v' : View keys.Key NlAddr) × (view (name_of l) s' ≡ some v')
        × ((ltb_ℤ (pos 0) m ≡ false) ⊎ (v'.mtu ≡ m))
  unfolding apply_mtu
  apply_mtu-none l m s s' v h seen same = elim (Bool-cases (ltb_ℤ (pos 0) m)) [
    | inr f ↦
        let g : (none, s) ≡ (none, s') = rw (apply_mtu, f) at h in
        (v, ap (λ z. view (name_of l) z) (sym (ap (λ r. r.1) g)) ∙ seen, inl f)
    | inl t ↦ elim (Bool-cases (beq_ℤ (kernel.link_mtu l) m)) [
      | inl b ↦
          let g : (none, s) ≡ (none, s') = rw (apply_mtu, t, b) at h in
          (
            v,
            ap (λ z. view (name_of l) z) (sym (ap (λ r. r.1) g)) ∙ seen,
            inr (same ∙ (beq_ℤ_iff (kernel.link_mtu l) m).0 b),
          )
      | inr b ↦
          let g = done-none set_mtu (kernel.link_set_mtu l m s) (rw (apply_mtu, t, b) at h) in
          (record v { mtu = m }, laws.view_of_mtu l m s s' v g seen, inr refl)
    ]
  ]

  apply_address-none :
      (l : Link) (address : net.Prefix) (s s' : State) (v : View keys.Key NlAddr)
      → apply_address net keys kernel l address s ≡ (none, s')
      → view (name_of l) s ≡ some v
      → (h : NlAddr → Bool) × (view (name_of l) s' ≡ some (record v { has_address = h }))
        × ((net.is_valid address ≡ false)
            ⊎ ((a : NlAddr) × (netlink_addr_from_prefix net keys kernel address ≡ some a)
                × (h a ≡ true)))
  unfolding apply_address
  apply_address-none l address s s' v h seen = elim (Bool-cases (net.is_valid address)) [
    | inr f ↦
        let g : (none, s) ≡ (none, s') = rw (apply_address, f) at h in
        (v.has_address, ap (λ z. view (name_of l) z) (sym (ap (λ r. r.1) g)) ∙ seen, inl f)
    | inl t ↦ elim (Option-cases (netlink_addr_from_prefix net keys kernel address)) [
      | inl n ↦ absurd (
          let g : (some parse_addr, s) ≡ (none, s') = rw (apply_address, t, n) at h in
          let x : some parse_addr ≡ none = ap (λ r. r.0) g in cc)
      | inr (a, n) ↦
          let g =
            done-none set_address (kernel.addr_replace l a s) (rw (apply_address, t, n) at h) in
          let (has, seen', yes_a) = laws.view_of_address l a s s' v g seen in
          (has, seen', inr (a, n, yes_a))
    ]
  ]

  Lookup-cases :
      (x : Lookup Link) → ((l : Link) × (x ≡ found l)) ⊎ ((x ≡ not_found) ⊎ (x ≡ lookup_failed))
  Lookup-cases (found l) = inl (l, refl)
  Lookup-cases not_found = inr (inl refl)
  Lookup-cases lookup_failed = inr (inr refl)

  relookup-found :
      (name : String) (r : Bool × State) (l : Link)
      → (relookup net keys kernel name r).0 ≡ ok l
      → kernel.link_by_name name (relookup net keys kernel name r).1 ≡ found l
  relookup-found name (false, s) l h = cc
  relookup-found name (true, s) l h = elim (Lookup-cases (kernel.link_by_name name s)) [
    | inl (k, e) ↦ let same : ok k ≡ ok l = rw (relookup, e) at h in rw (relookup, e) (e ∙ (cc))
    | inr (inl e) ↦ absurd (let x : err link_lookup ≡ ok l = rw (relookup, e) at h in cc)
    | inr (inr e) ↦ absurd (let x : err link_lookup ≡ ok l = rw (relookup, e) at h in cc)
  ]

  -- `ensureLink` returns the link that the name has afterwards.
  ensure_link-found :
      (name : String) (m : ℤ) (s : State) (l : Link)
      → (ensure_link net keys kernel name m s).0 ≡ ok l
      → kernel.link_by_name name (ensure_link net keys kernel name m s).1 ≡ found l
  unfolding ensure_link
  ensure_link-found name m s l h = elim (Lookup-cases (kernel.link_by_name name s)) [
    | inl (k, e) ↦
        let same : ok k ≡ ok l = rw (ensure_link, e) at h in rw (ensure_link, e) (e ∙ (cc))
    | inr (inl e) ↦
        let added = kernel.link_add (link_attrs net keys kernel name m) s in
        rw (ensure_link, e) (relookup-found name added l (rw (ensure_link, e) at h))
    | inr (inr e) ↦ absurd (let x : err link_lookup ≡ ok l = rw (ensure_link, e) at h in cc)
  ]

  provision-IsProvisioned :
      (name : String) (opts : UpOptions net keys) (l : Link) (s s' : State)
      → kernel.link_by_name name s ≡ found l
      → provision net keys kernel name opts (ok l, s) ≡ (none, s')
      → IsProvisioned name opts s'
  unfolding provision
  provision-IsProvisioned name opts l s s' lk h =
      let (named, v, seen, same) = laws.view_of_found name l s lk in
      let at_link : (z : State) (x : View keys.Key NlAddr)
          → view name z ≡ some x
          → view (name_of l) z ≡ some x =
        λ z x e. rw named e in
      let at_name : (z : State) (x : View keys.Key NlAddr)
          → view (name_of l) z ≡ some x
          → view name z ≡ some x =
        λ z x e. rw (← named) e in
      let (s1, m, h1) = and_then-none (apply_mtu net keys kernel l opts.mtu s) _ h in
      let (s2, c, h2) = and_then-none _ _ h1 in
      let (s3, a, h3) = and_then-none (apply_address net keys kernel l opts.address s2) _ h2 in
      let (v1, seen1, mtu_set) = apply_mtu-none l opts.mtu s s1 v m (at_link s v seen) same in
      let (port, seen2, port_set) =
        laws.view_of_device name (device_config net keys kernel opts) s1 s2 v1
          (done-none configure _ c) (at_name s1 v1 seen1) in
      let v2 : View keys.Key NlAddr = record v1 {
        private_key = some opts.private_key;
        listen_port = port;
      } in
      let (has, seen3, address_set) =
        apply_address-none l opts.address s2 s3 v2 a (at_link s2 v2 seen2) in
      let v3 : View keys.Key NlAddr = record v2 { has_address = has } in
      record {
        now = record v3 { is_up = true };
        there =
            at_name s' (record v3 { is_up = true })
              (laws.view_of_up l s3 s' v3 (done-none link_up _ h3) seen3);
        up = refl;
        key = refl;
        mtu = mtu_set;
        port = port_set;
        address = address_set;
      }

  provision-link :
      (name : String) (opts : UpOptions net keys) (r : Result LinkError Link × State) {s' : State}
      → provision net keys kernel name opts r ≡ (none, s')
      → (l : Link) × (r.0 ≡ ok l) × (provision net keys kernel name opts (ok l, r.1) ≡ (none, s'))
  unfolding provision
  provision-link name opts (ok l, s) h = (l, refl, h)
  provision-link name opts (err e, s) h = absurd (let x : some e ≡ none = ap (λ r. r.0) h in cc)

  -- An `Up` that reports no error leaves the interface there and up, with the private key, and with
  -- the MTU if it is positive, the port if it is not zero and the address if it is valid: whatever
  -- interface of that name there was before.
  pub up-IsProvisioned :
      (name : String) (opts : UpOptions net keys) (s s' : State)
      → up net keys kernel name opts s ≡ (none, s')
      → IsProvisioned name opts s'
  unfolding up provision
  up-IsProvisioned name opts s s' h =
      let made = ensure_link net keys kernel name opts.mtu s in
      let (l, f, h') = provision-link name opts made h in
      provision-IsProvisioned name opts l made.1 s' (ensure_link-found name opts.mtu s l f) h'

  -- A `Down` that reports no error leaves no interface of that name, and a second one reports no error
  -- and changes nothing.
  pub down-gone :
      (name : String) (s s' : State)
      → down net keys kernel name s ≡ (none, s')
      → (view name s' ≡ none) × (down net keys kernel name s' ≡ (none, s'))
  unfolding down
  down-gone name s s' h =
      let again : view name s' ≡ none → down net keys kernel name s' ≡ (none, s') =
        λ e. rw (down, laws.absent_of_view name s' e) refl in
      let gone : view name s' ≡ none = elim (Lookup-cases (kernel.link_by_name name s)) [
        | inl (l, e) ↦
            let named = (laws.view_of_found name l s e).0 in
            rw (← named) (
              laws.view_of_del l s s'
                (done-none link_del (kernel.link_del l s) (rw (down, e) at h)))
        | inr (inl e) ↦
            let g : (none, s) ≡ (none, s') = rw (down, e) at h in
            rw (← ap (λ r. r.1) g) (laws.view_of_absent name s e)
        | inr (inr e) ↦ absurd (
            let g : (some link_lookup, s) ≡ (none, s') = rw (down, e) at h in
            let x : some link_lookup ≡ none = ap (λ r. r.0) g in cc)
      ] in
      (gone, again gone)
