-- ===== src/Spec/Filled.antt =====
-- internal/spec/defaults.go: `ApplyDefaults` fills the empty fields, and no others, once.
use seine.Prelude.{String, ◌≡◌, ◌≢◌, refl, eq_iff, ◌==◌, arith, Bool-cases, inl, inr}
use seine.Prelude.Int.{ℤ, pos, beq_ℤ, beq_ℤ_iff}
use seine.Spec.Types
use seine.Spec.Types.{Document, WireGuard}
use seine.Spec.Defaults.{apply_defaults, wireguard_defaults, or_text, or_number}

or_text-again : (s d : String) → or_text (or_text s d) d ≡ or_text s d
or_text-again s d = elim (Bool-cases (s == "")) [ inl e ↦ ground arith | inr e ↦ ground arith ]

or_number-again : (n d : ℤ) → or_number (or_number n d) d ≡ or_number n d
or_number-again n d = elim (Bool-cases (beq_ℤ n (pos 0))) [
  | inl e ↦ ground arith
  | inr e ↦ ground arith
]

wireguard_defaults-again :
    (w : WireGuard) → wireguard_defaults (wireguard_defaults w) ≡ wireguard_defaults w
unfolding wireguard_defaults
wireguard_defaults-again w = λ i. record {
  mtu = or_number-again w.mtu Types.default_mtu i;
  persistent_keepalive =
      or_number-again w.persistent_keepalive Types.default_persistent_keepalive i;
  hub_listen_port = or_number-again w.hub_listen_port Types.default_hub_listen_port i;
}

-- `ApplyDefaults` is idempotent.
pub apply_defaults-again : (d : Document) → apply_defaults (apply_defaults d) ≡ apply_defaults d
unfolding apply_defaults
apply_defaults-again d = λ i. record d {
  api_version = or_text-again d.api_version Types.api_version i;
  kind = or_text-again d.kind Types.kind i;
  spec = record (d.spec) { wireguard = wireguard_defaults-again d.spec.wireguard i };
}

-- A field that was empty gets the default, and any other stays.
abbrev pub IsFilled : {A : Type 0} → A → A → A → A → Type 0
IsFilled empty default before after =
    (before ≡ empty → after ≡ default) × (before ≢ empty → after ≡ before)

-- A document with its empty fields filled, and otherwise the same.
pub record Fills (raw doc : Document) : Type 0 where
  pub api_version : IsFilled "" "seine.io/v1" raw.api_version doc.api_version
  pub kind : IsFilled "" "Network" raw.kind doc.kind
  pub mtu : IsFilled (pos 0) (pos 1420) raw.spec.wireguard.mtu doc.spec.wireguard.mtu
  pub persistent_keepalive :
      IsFilled
        (pos 0)
        (pos 25_000_000_000)
        raw.spec.wireguard.persistent_keepalive
        doc.spec.wireguard.persistent_keepalive
  pub hub_listen_port :
      IsFilled
        (pos 0)
        (pos 51820)
        raw.spec.wireguard.hub_listen_port
        doc.spec.wireguard.hub_listen_port
  pub metadata : doc.metadata ≡ raw.metadata
  pub cidr : doc.spec.cidr ≡ raw.spec.cidr
  pub hubs : doc.spec.hubs ≡ raw.spec.hubs
  pub agents : doc.spec.agents ≡ raw.spec.agents
  pub groups : doc.spec.groups ≡ raw.spec.groups
  pub acls : doc.spec.acls ≡ raw.spec.acls

or_text-IsFilled : (s d : String) → IsFilled "" d s (or_text s d)
or_text-IsFilled s d = elim (Bool-cases (s == "")) [
  | inl b ↦ rw b ((λ e. refl), λ n. absurd (n ((eq_iff s "").0 b)))
  | inr b ↦ rw b ((λ e. absurd (let q = (eq_iff s "").1 e in cc)), λ n. refl)
]

or_number-IsFilled : (n d : ℤ) → IsFilled (pos 0) d n (or_number n d)
or_number-IsFilled n d = elim (Bool-cases (beq_ℤ n (pos 0))) [
  | inl b ↦ rw b ((λ e. refl), λ h. absurd (h ((beq_ℤ_iff n (pos 0)).0 b)))
  | inr b ↦ rw b ((λ e. absurd (let q = (beq_ℤ_iff n (pos 0)).1 e in cc)), λ h. refl)
]

pub apply_defaults-Fills : (raw : Document) → Fills raw (apply_defaults raw)
unfolding apply_defaults wireguard_defaults
apply_defaults-Fills raw = record {
  api_version = or_text-IsFilled raw.api_version Types.api_version;
  kind = or_text-IsFilled raw.kind Types.kind;
  mtu = or_number-IsFilled raw.spec.wireguard.mtu Types.default_mtu;
  persistent_keepalive =
      or_number-IsFilled raw.spec.wireguard.persistent_keepalive Types.default_persistent_keepalive;
  hub_listen_port =
      or_number-IsFilled raw.spec.wireguard.hub_listen_port Types.default_hub_listen_port;
  metadata = refl;
  cidr = refl;
  hubs = refl;
  agents = refl;
  groups = refl;
  acls = refl;
}
