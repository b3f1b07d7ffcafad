-- ===== src/Transport.antt =====
-- transport/policy.go: which URLs may be delivered to, and which addresses may be dialled. The
-- addresses and prefixes are those of net/netip.
pub mod Laws
use hookbound.Base.{
  ℕ, ◌+◌, ◌*◌, ◌/◌, ◌%◌, ◌^◌, ◌-◌, ◌≡◌, Bool, true, false, not, ◌&&◌, ◌||◌, Option, none, some,
  List, [], ◌∷◌, Text, codes, text_eq, ltb, ◌==◌, if◌then◌else◌, any, is_empty, contains_byte,
  parse_digits,
}

-- Why a destination is refused: ErrUnsafeDestination, or a failure of the resolver or the dialler.
pub data Reason : Type 0 where
  unsafe_destination resolve_failed no_addresses dial_failed : Reason

pub data Checked {ℓ} (A : Type ℓ) : Type ℓ where
  passed : A → Checked A
  refused : Reason → Checked A

-- What net/url gives of a URL.
pub record Url : Type 0 where
  pub scheme : Text
  pub host : Text
  pub hostname : Text
  pub port : Text
  pub has_user : Bool
  pub fragment : Text

-- netip.Addr: the zero value, 32 bits, 128 bits, or 128 bits with a zone that is not empty.
pub data Addr : Type 0 where
  no_addr : Addr
  v4 v6 : ℕ → Addr
  zoned : (zone : Text) → ℕ → Addr

-- netip.Prefix of a valid address and length.
pub record Prefix : Type 0 where
  pub base : Addr
  pub bits : ℕ

-- Prefix.Contains: the families agree, and the leading bits; no prefix has an address with a zone.
agrees : Addr → (bits : ℕ) → Addr → Bool
agrees (v4 n) b (v4 m) = m / 2 ^ (32 - b) == n / 2 ^ (32 - b)
agrees (v6 n) b (v6 m) = m / 2 ^ (128 - b) == n / 2 ^ (128 - b)
agrees _ b _ = false

unfoldable pub contains : Prefix → Addr → Bool
unfolding agrees
contains p a = agrees p.base p.bits a

abbrev octets : (a b c d : ℕ) → ℕ
octets a b c d = ((a * 256 + b) * 256 + c) * 256 + d

abbrev v4_prefix : (a b c d bits : ℕ) → Prefix
v4_prefix a b c d bits = record { base = v4 (octets a b c d); bits = bits }

abbrev v6_prefix : (group₀ group₁ bits : ℕ) → Prefix
v6_prefix group₀ group₁ bits = record {
  base = v6 ((group₀ * 65536 + group₁) * 2 ^ 96);
  bits = bits;
}

-- Addr.Unmap
unfoldable pub unmap : Addr → Addr
unmap (v6 n) = if n / 2 ^ 32 == 65535 then v4 (n % 2 ^ 32) else v6 n
unmap (zoned zone n) = if n / 2 ^ 32 == 65535 then v4 (n % 2 ^ 32) else zoned zone n
unmap a = a

abbrev in_any : List Prefix → Addr → Bool
in_any prefixes a = any (λ p. contains p a) prefixes

-- An address less its zone.
abbrev pub without_zone : Addr → Addr
without_zone (zoned zone n) = v6 n
without_zone a = a

-- IsUnspecified, which an address with a zone never is.
abbrev pub is_unspecified : Addr → Bool
is_unspecified (v4 n) = n == 0
is_unspecified (v6 n) = n == 0
is_unspecified _ = false

-- The prefixes of Addr's tests that pass over a zone: IsLoopback, IsPrivate, IsLinkLocalUnicast,
-- IsLinkLocalMulticast (IPv4; that of IPv6 lies in IsMulticast) and IsMulticast.
abbrev pub special_prefixes : List Prefix
special_prefixes =
    v4_prefix 127 0 0 0 8
    ∷ record { base = v6 1; bits = 128 }
    ∷ v4_prefix 10 0 0 0 8
    ∷ v4_prefix 172 16 0 0 12
    ∷ v4_prefix 192 168 0 0 16
    ∷ v6_prefix 64512 0 7
    ∷ v4_prefix 169 254 0 0 16
    ∷ v6_prefix 65152 0 10
    ∷ v4_prefix 224 0 0 0 24
    ∷ v4_prefix 224 0 0 0 4
    ∷ v6_prefix 65280 0 8
    ∷ []

-- reservedPrefixes
abbrev pub reserved_prefixes : List Prefix
reserved_prefixes =
    v4_prefix 0 0 0 0 8
    ∷ v4_prefix 100 64 0 0 10
    ∷ v4_prefix 192 0 0 0 24
    ∷ v4_prefix 192 0 2 0 24
    ∷ v4_prefix 198 18 0 0 15
    ∷ v4_prefix 198 51 100 0 24
    ∷ v4_prefix 203 0 113 0 24
    ∷ v4_prefix 224 0 0 0 4
    ∷ v4_prefix 240 0 0 0 4
    ∷ v6_prefix 8193 3512 32
    ∷ []

-- `IsValid`
abbrev pub is_valid : Addr → Bool
is_valid no_addr = false
is_valid _ = true

-- validateAddress: whether the address may be dialled.
unfoldable pub validate_address : Addr → (allowed : List Prefix) → Bool
validate_address a allowed =
    if in_any allowed a
    then true
    else if not (is_valid a) || (is_unspecified a || in_any special_prefixes (without_zone a))
    then false
    else not (in_any reserved_prefixes a)

-- The fields of Policy that decide about destinations.
pub record Policy : Type 0 where
  pub allow_plain_http : Bool
  pub allow_any_port : Bool
  pub allowed_ports : List ℕ
  pub allowed_cidrs : List Prefix

-- `normalized`, of those fields.
unfoldable pub normalized : Policy → Policy
normalized p = record p {
  allowed_ports =
      if p.allow_any_port
      then []
      else (elim p.allowed_ports [ [] ↦ 443 ∷ [] | port ∷ ports ↦ port ∷ ports ]);
}

-- effectivePort
unfoldable pub effective_port : Url → Checked ℕ
effective_port u =
    if is_empty u.port
    then passed (if text_eq u.scheme (codes "https") then 443 else 80)
    else elim (parse_digits u.port) [
      | none ↦ refused unsafe_destination
      | some port ↦ if ltb 65535 port || port == 0 then refused unsafe_destination else passed port
    ]

-- The tests of ValidateURL in their order; the last is that of the port.
unfoldable pub checks_host : Policy → Url → Bool
checks_host p u =
    (text_eq u.scheme (codes "https") || p.allow_plain_http && text_eq u.scheme (codes "http"))
    && (not (is_empty u.hostname)
        && (not u.has_user
            && (is_empty u.fragment && not (any (λ c. contains_byte c (13 ∷ 10 ∷ 0 ∷ [])) u.host))))

unfoldable pub checks_port : Policy → Url → Bool
unfolding effective_port
checks_port p u = elim (effective_port u) [
  | refused reason ↦ false
  | passed port ↦ p.allow_any_port || any (λ q. q == port) p.allowed_ports
]

-- ValidateURL; `parse` is url.Parse, which may fail.
unfoldable pub validate_url : (parse : Text → Option Url) → Text → Policy → Checked Url
unfolding normalized checks_host checks_port
validate_url parse raw p = elim (parse raw) [
  | none ↦ refused unsafe_destination
  | some u ↦
      if checks_host (normalized p) u && checks_port (normalized p) u
      then passed u
      else refused unsafe_destination
]

-- The loop of `resolve`: addresses unmapped, each kept once.
unfoldable pub addr_eq : Addr → Addr → Bool
addr_eq no_addr no_addr = true
addr_eq (v4 n) (v4 m) = n == m
addr_eq (v6 n) (v6 m) = n == m
addr_eq (zoned z n) (zoned y m) = text_eq z y && n == m
addr_eq _ _ = false

unfoldable pub distinct_unmapped : (seen : List Addr) → List Addr → List Addr
unfolding addr_eq unmap
distinct_unmapped seen [] = []
distinct_unmapped seen (ip ∷ ips) =
    let a = unmap ip in
    let skipped = distinct_unmapped seen ips in
    let kept = distinct_unmapped (a ∷ seen) ips in
    if any (addr_eq a) seen then skipped else a ∷ kept

-- resolve; `parse_addr` is netip.ParseAddr and `look_up` is the resolver.
unfoldable pub resolve :
    (parse_addr : Text → Option Addr)
    → (look_up : Text → Option (List Addr)) → Text
    → Checked (List Addr)
unfolding distinct_unmapped
resolve parse_addr look_up host = elim (parse_addr host) [
  | some a ↦ passed (unmap a ∷ [])
  | none ↦ elim (look_up host) [
    | none ↦ refused resolve_failed
    | some ips ↦ passed (distinct_unmapped [] ips)
  ]
]

-- The loop that dials: the addresses tried, in order, and the first that answers. `connects` is
-- whether the dialler reaches an address.
unfoldable pub dial_first : (connects : Addr → Bool) → List Addr → List Addr × Checked Addr
dial_first connects [] = ([], refused dial_failed)
dial_first connects (a ∷ more) =
    let rest = dial_first connects more in
    if connects a then (a ∷ [], passed a) else (a ∷ rest.0, rest.1)

-- The part of dialContext after the resolution: all addresses are validated before any is dialled.
unfoldable pub dial_addresses :
    (connects : Addr → Bool)
    → (allowed : List Prefix) → Checked (List Addr)
    → List Addr × Checked Addr
unfolding dial_first validate_address
dial_addresses connects allowed (refused reason) = ([], refused reason)
dial_addresses connects allowed (passed []) = ([], refused no_addresses)
dial_addresses connects allowed (passed (a ∷ more)) =
    if any (λ b. not (validate_address b allowed)) (a ∷ more)
    then ([], refused unsafe_destination)
    else dial_first connects (a ∷ more)

-- dialContext, of a host that `net.SplitHostPort` split off.
unfoldable pub dial_context :
    (parse_addr : Text → Option Addr)
    → (look_up : Text → Option (List Addr)) → (connects : Addr → Bool) → Policy
    → (host : Text) → List Addr × Checked Addr
unfolding dial_addresses resolve
dial_context parse_addr look_up connects p host =
    dial_addresses connects p.allowed_cidrs (resolve parse_addr look_up host)
