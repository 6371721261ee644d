-- ===== src/Examples/Link.antt =====
-- A kernel with interfaces by name, and the theorems on bringing one up and taking it down.
use seine.Prelude.{
  String, ◌≡◌, refl, sym, ap, true, false, Option, none, some, ◌==◌, eq_refl, inr, if◌then◌else◌,
}
use seine.Prelude.Int.{ℤ, pos}
use seine.Wg.Types.{UpOptions}
use seine.Wg.Link.{
  Kernel, LinkAttrs, DeviceConfig, Lookup, found, not_found, up, down, ensure_link, provision,
  apply_mtu, apply_address, netlink_addr_from_prefix,
}
use seine.Wg.Iface.{ip_net_from_prefix}
use seine.Wg.Provision.{View, LinkLaws, IsProvisioned, up-IsProvisioned, down-gone}
use seine.Examples.Sample.{Host, gateway, laptop, sample_net}
use seine.Examples.Device.{sample_keys}

abbrev pub Nic : Type 0
Nic = View Host String

abbrev pub Nics : Type 0
Nics = String → Option Nic

abbrev changed : (Nic → Nic) → Option Nic → Option Nic
changed f none = none
changed f (some n) = some (f n)

abbrev change : String → (Nic → Nic) → Nics → Nics
change name f s = λ x. if x == name then changed f (s x) else s x

abbrev known : String → Option Nic → Lookup (String × ℤ)
known name none = not_found
known name (some n) = found (name, n.mtu)

abbrev mtu_or_default : Option ℤ → ℤ
mtu_or_default none = pos 1500
mtu_or_default (some m) = m

abbrev created : LinkAttrs → Nic
created attrs = record {
  mtu = mtu_or_default attrs.mtu;
  private_key = none;
  listen_port = pos 0;
  has_address = λ a. false;
  is_up = false;
}

abbrev configured : DeviceConfig sample_keys → Nic → Nic
configured c n = record n { private_key = some c.private_key; listen_port = c.listen_port }

abbrev addressed : String → Nic → Nic
addressed a n = record n { has_address = λ b. if b == a then true else n.has_address b }

-- A link is its name with the MTU that it had when it was looked up.
abbrev pub sample_kernel : Kernel sample_keys
sample_kernel = record {
  State = Nics;
  Link = String × ℤ;
  NlAddr = String;
  open_wgctrl = λ s. (true, s);
  close_wgctrl = λ s. (true, s);
  link_by_name = λ name s. known name (s name);
  link_mtu = λ l. l.1;
  link_add = λ attrs s. (true, λ x. if x == attrs.name then some (created attrs) else s x);
  link_set_mtu = λ l m s. (true, change l.0 (λ n. record n { mtu = m }) s);
  link_set_up = λ l s. (true, change l.0 (λ n. record n { is_up = true }) s);
  link_del = λ l s. (true, λ x. if x == l.0 then none else s x);
  configure_device = λ name c s. (true, change name (configured c) s);
  ip_net_string = λ n. "10.0.0.1/24";
  parse_addr = λ text. some text;
  addr_replace = λ l a s. (true, change l.0 (addressed a) s);
}

known-found :
    (name : String) (o : Option Nic) (l : String × ℤ)
    → known name o ≡ found l
    → (l.0 ≡ name) × (v : Nic) × (o ≡ some v) × (v.mtu ≡ l.1)
known-found name none l h = absurd (cc)
known-found name (some n) l h =
    let e : (name, n.mtu) ≡ l = cc in (ap (λ p. p.0) (sym e), n, refl, ap (λ p. p.1) e)

known-not_found : (name : String) (o : Option Nic) → known name o ≡ not_found → o ≡ none
known-not_found name none h = refl
known-not_found name (some n) h = cc

change_at :
    (name : String) (f : Nic → Nic) (s s' : Nics) (v : Nic)
    → change name f s ≡ s'
    → s name ≡ some v
    → s' name ≡ some (f v)
change_at name f s s' v e h = rw (← e) (rw (eq_refl name) (ap (changed f) h))

removed_at :
    (name : String) (s s' : Nics)
    → (λ (x : String). if x == name then none else s x) ≡ s'
    → s' name ≡ none
removed_at name s s' e = rw (← e) (rw (eq_refl name) refl)

pub sample_link_laws : LinkLaws sample_kernel
sample_link_laws = record {
  view = λ name s. s name;
  name_of = λ l. l.0;
  view_of_found = λ name l s h. known-found name (s name) l h;
  view_of_absent = λ name s h. known-not_found name (s name) h;
  absent_of_view = λ name s h. ap (known name) h;
  view_of_mtu = λ l m s s' v e h. change_at l.0 _ s s' v (ap (λ r. r.1) e) h;
  view_of_device = λ name c s s' v e h.
      (c.listen_port, change_at name (configured c) s s' v (ap (λ r. r.1) e) h, inr refl);
  view_of_address = λ l a s s' v e h. (
    (addressed a v).has_address,
    change_at l.0 (addressed a) s s' v (ap (λ r. r.1) e) h,
    rw (eq_refl a) refl,
  );
  view_of_up = λ l s s' v e h. change_at l.0 _ s s' v (ap (λ r. r.1) e) h;
  view_of_del = λ l s s' e. removed_at l.0 s s' (ap (λ r. r.1) e);
}

abbrev pub no_nics : Nics
no_nics = λ x. none

abbrev opts : UpOptions sample_net sample_keys
opts = record {
  private_key = laptop;
  listen_port = pos 51820;
  address = (gateway, 24);
  mtu = pos 1420;
}

abbrev after_up : Nics
after_up = (up sample_net sample_keys sample_kernel "seine0" opts no_nics).1

comes_up : up sample_net sample_keys sample_kernel "seine0" opts no_nics ≡ (none, after_up)
unfolding up ensure_link provision apply_mtu apply_address netlink_addr_from_prefix
    ip_net_from_prefix
comes_up = refl

up-IsProvisioned_example :
    IsProvisioned sample_net sample_keys sample_kernel sample_link_laws "seine0" opts after_up
up-IsProvisioned_example =
    up-IsProvisioned sample_net sample_keys sample_kernel sample_link_laws "seine0" opts no_nics
      after_up comes_up

abbrev one_nic : Nics
one_nic =
    λ x. if x == "seine0" then some (created (record { name = x; mtu = some (pos 1420) })) else none

abbrev after_down : Nics
after_down = (down sample_net sample_keys sample_kernel "seine0" one_nic).1

goes_down : down sample_net sample_keys sample_kernel "seine0" one_nic ≡ (none, after_down)
unfolding down
goes_down = refl

down-gone_example :
    (sample_link_laws.view "seine0" after_down ≡ none)
    × (down sample_net sample_keys sample_kernel "seine0" after_down ≡ (none, after_down))
down-gone_example =
    down-gone sample_net sample_keys sample_kernel sample_link_laws "seine0" one_nic after_down
      goes_down
