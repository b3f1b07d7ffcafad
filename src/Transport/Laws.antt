-- ===== src/Transport/Laws.antt =====
-- transport/policy.go: nothing but public and expressly allowed addresses is dialled.
use hookbound.Base.{
  ℕ, ◌≡◌, refl, ◌⊎◌, inl, inr, Bool, true, false, not, ◌&&◌, Option, some, List, [], ◌∷◌, Text,
  codes, text_eq_iff, text_eq, if◌then◌else◌, sym, ap, ◌∙◌, &&-eq-true, contains_byte, subst, any,
  All, arith, Option-cases, Bool-cases, is_empty, ◌↔◌, ◌==◌, ◌≢◌, ◌≤◌, parse_digits,
}
use hookbound.Transport.{
  Reason, unsafe_destination, no_addresses, dial_failed, Addr, Prefix, Policy, Url, Checked, passed,
  refused, contains, special_prefixes, reserved_prefixes, is_valid, is_unspecified, without_zone,
  validate_address, resolve, dial_first, dial_addresses, dial_context, normalized, effective_port,
  checks_host, checks_port, validate_url,
}

-- An address that the policy allows by a prefix of its own, or one that is valid, not unspecified, in
-- no reserved prefix and, its zone left away, in no special prefix.
abbrev pub IsDialable : List Prefix → Addr → Type 0
IsDialable allowed a =
    (any (λ p. contains p a) allowed ≡ true)
    ⊎ ((is_valid a ≡ true)
        × (is_unspecified a ≡ false)
        × (any (λ p. contains p (without_zone a)) special_prefixes ≡ false)
        × (any (λ p. contains p a) reserved_prefixes ≡ false))

validate_address-IsDialable :
    (a : Addr) (allowed : List Prefix) → validate_address a allowed ≡ true → IsDialable allowed a
unfolding validate_address
validate_address-IsDialable a allowed h = elim (Bool-cases (any (λ p. contains p a) allowed)) [
  | inl e ↦ inl e
  | inr e ↦ inr (ground (arith, h, e))
]

All-IsDialable :
    (allowed : List Prefix) (l : List Addr)
    → any (λ b. not (validate_address b allowed)) l ≡ false
    → All (IsDialable allowed) l
All-IsDialable allowed [] h = tt
All-IsDialable allowed (a ∷ l) h = (
  validate_address-IsDialable a allowed (ground (arith, h)),
  All-IsDialable allowed l (ground (arith, h)),
)

checked-cases {ℓ} :
    {A : Type ℓ} (c : Checked A)
    → ((reason : Reason) × (c ≡ refused reason)) ⊎ ((a : A) × (c ≡ passed a))
checked-cases (passed a) = inr (a, refl)
checked-cases (refused reason) = inl (reason, refl)

if-true {ℓ} : {A : Type ℓ} (b : Bool) (x y : A) → b ≡ true → (if b then x else y) ≡ x
if-true b x y h = rw h refl

if-false {ℓ} : {A : Type ℓ} (b : Bool) (x y : A) → b ≡ false → (if b then x else y) ≡ y
if-false b x y h = rw h refl

some_eq : {u v : Url} → some u ≡ some v → u ≡ v
some_eq h = cc

-- A dial fails, or connects to an address that meets a condition and answered.
abbrev pub Answers : (P : Addr → Type 0) → (connects : Addr → Bool) → Checked Addr → Type 0
Answers P connects answer =
    ((reason : Reason) × (answer ≡ refused reason))
    ⊎ ((a : Addr) × (answer ≡ passed a) × P a × (connects a ≡ true))

-- What holds of every address holds of those that are tried and of the one that answers.
dial_first-All :
    (P : Addr → Type 0) (connects : Addr → Bool) (l : List Addr)
    → All P l
    → All P (dial_first connects l).0 × Answers P connects (dial_first connects l).1
unfolding dial_first
dial_first-All P connects [] h = (tt, inl (dial_failed, refl))
dial_first-All P connects (x ∷ l) h = elim (Bool-cases (connects x)) [
  | inl c ↦ rw c ((h.0, tt), inr (x, refl, h.0, c))
  | inr c ↦ let (tried, answer) = dial_first-All P connects l h.1 in rw c ((h.0, tried), answer)
]

dial_addresses-IsDialable :
    (connects : Addr → Bool) (allowed : List Prefix) (found : Checked (List Addr))
    → All (IsDialable allowed) (dial_addresses connects allowed found).0
      × Answers (IsDialable allowed) connects (dial_addresses connects allowed found).1
      × (((dial_addresses connects allowed found).0 ≡ [])
          ⊎ ((l : List Addr) × (found ≡ passed l) × All (IsDialable allowed) l))
unfolding dial_addresses
dial_addresses-IsDialable connects allowed (refused reason) = (tt, inl (reason, refl), inl refl)
dial_addresses-IsDialable connects allowed (passed []) = (tt, inl (no_addresses, refl), inl refl)
dial_addresses-IsDialable connects allowed (passed (x ∷ l)) =
    elim (Bool-cases (any (λ b. not (validate_address b allowed)) (x ∷ l))) [
      | inl unsafe ↦
          subst
            (λ (t : List Addr × Checked Addr).
              All (IsDialable allowed) t.0
              × Answers (IsDialable allowed) connects t.1
              × ((t.0 ≡ [])
                  ⊎ ((m : List Addr) × (passed (x ∷ l) ≡ passed m) × All (IsDialable allowed) m)))
            (sym (if-true _ _ _ unsafe)) (tt, inl (unsafe_destination, refl), inl refl)
      | inr safe ↦
          let safe_all = All-IsDialable allowed (x ∷ l) safe in
          let (tried, answer) = dial_first-All (IsDialable allowed) connects (x ∷ l) safe_all in
          subst
            (λ (t : List Addr × Checked Addr).
              All (IsDialable allowed) t.0
              × Answers (IsDialable allowed) connects t.1
              × ((t.0 ≡ [])
                  ⊎ ((m : List Addr) × (passed (x ∷ l) ≡ passed m) × All (IsDialable allowed) m)))
            (sym (if-false _ _ _ safe)) (tried, answer, inr (x ∷ l, refl, safe_all))
    ]

-- Every address that a dial tries, and the one that it connects to, is one that the policy's own
-- prefixes allow or a valid one that is not unspecified, is in none of the reserved prefixes and, its
-- zone left away, in none of the special ones; the one that it connects to answered. And a dial tries
-- no address at all unless every address that the host resolved to is such an address. As in net/netip,
-- an address with a zone is never unspecified and lies in no prefix, so of such an address only the
-- part on the special prefixes says something.
pub dial_context-IsDialable :
    (parse_addr : Text → Option Addr) (look_up : Text → Option (List Addr)) (connects : Addr → Bool)
    (p : Policy) (host : Text)
    → All (IsDialable p.allowed_cidrs) (dial_context parse_addr look_up connects p host).0
      × Answers
          (IsDialable p.allowed_cidrs)
          connects
          (dial_context parse_addr look_up connects p host).1
      × (((dial_context parse_addr look_up connects p host).0 ≡ [])
          ⊎ ((l : List Addr) × (resolve parse_addr look_up host ≡ passed l)
              × All (IsDialable p.allowed_cidrs) l))
unfolding dial_context
dial_context-IsDialable parse_addr look_up connects p host =
    dial_addresses-IsDialable connects p.allowed_cidrs (resolve parse_addr look_up host)

-- The port that a URL names, a decimal numeral from 1 to 65535, or the default of its scheme.
abbrev pub HasPort : Url → ℕ → Type 0
HasPort u port =
    ((is_empty u.port ≡ true)
      × (((u.scheme ≡ codes "https") × (port ≡ 443)) ⊎ ((u.scheme ≢ codes "https") × (port ≡ 80))))
    ⊎ ((is_empty u.port ≡ false) × (parse_digits u.port ≡ some port) × (1 ≤ port) × (port ≤ 65535))

-- A port that a policy allows: any, or one that it lists, or 443 if it lists none.
abbrev pub AllowsPort : Policy → ℕ → Type 0
AllowsPort p port =
    (p.allow_any_port ≡ true)
    ⊎ ((p.allowed_ports ≡ []) × (port ≡ 443))
    ⊎ (any (λ q. q == port) p.allowed_ports ≡ true)

-- The conditions on a URL that may be delivered to.
abbrev pub IsAllowedUrl : Policy → Url → Type 0
IsAllowedUrl p u =
    ((u.scheme ≡ codes "https") ⊎ ((p.allow_plain_http ≡ true) × (u.scheme ≡ codes "http")))
    × (is_empty u.hostname ≡ false)
    × (u.has_user ≡ false)
    × (is_empty u.fragment ≡ true)
    × (any (λ c. contains_byte c (13 ∷ 10 ∷ 0 ∷ [])) u.host ≡ false)
    × ((port : ℕ) × HasPort u port × AllowsPort p port)

effective_port_iff : (u : Url) (port : ℕ) → (effective_port u ≡ passed port) ↔ HasPort u port
unfolding effective_port
effective_port_iff u port =
    let scheme = text_eq_iff u.scheme (codes "https") in
    elim (Bool-cases (is_empty u.port)) [
      | inl e ↦ elim (Bool-cases (text_eq u.scheme (codes "https"))) [
        | inl s ↦ ground (arith, e, s, scheme)
        | inr s ↦ ground (arith, e, s, scheme)
      ]
      | inr e ↦ elim (Option-cases (parse_digits u.port)) [
        | inl n ↦ ground (arith, e, n)
        | inr (v, n) ↦ ground (arith, e, n)
      ]
    ]

allowed_iff :
    (p : Policy) (port : ℕ)
    → ((p.allow_any_port ≡ true) ⊎ (any (λ q. q == port) (normalized p).allowed_ports ≡ true))
      ↔ AllowsPort p port
unfolding normalized
allowed_iff p port = elim (Bool-cases p.allow_any_port) [
  | inl e ↦ ground (arith, e)
  | inr e ↦ listed p.allowed_ports e
]
  where
    listed :
        (ports : List ℕ)
        → p.allow_any_port ≡ false
        → ((p.allow_any_port ≡ true)
            ⊎ (any (λ q. q == port) (normalized (record p { allowed_ports = ports })).allowed_ports
                ≡ true))
          ↔ AllowsPort (record p { allowed_ports = ports }) port
    listed [] e = ground (arith, e)
    listed (q ∷ ports) e = ground (arith, e)

checks_host_iff :
    (p : Policy) (u : Url)
    → (checks_host p u ≡ true) ↔ (
        ((u.scheme ≡ codes "https") ⊎ ((p.allow_plain_http ≡ true) × (u.scheme ≡ codes "http")))
        × (is_empty u.hostname ≡ false)
        × (u.has_user ≡ false)
        × (is_empty u.fragment ≡ true)
        × (any (λ c. contains_byte c (13 ∷ 10 ∷ 0 ∷ [])) u.host ≡ false))
unfolding checks_host
checks_host_iff p u =
    ground (arith, text_eq_iff u.scheme (codes "https"), text_eq_iff u.scheme (codes "http"))

effective_port-cases :
    (u : Url)
    → ((reason : Reason) × (effective_port u ≡ refused reason))
      ⊎ ((port : ℕ) × (effective_port u ≡ passed port))
effective_port-cases u = checked-cases (effective_port u)

checks_port_iff :
    (p : Policy) (u : Url)
    → (checks_port p u ≡ true) ↔ (
        (port : ℕ) × (effective_port u ≡ passed port)
        × ((p.allow_any_port ≡ true) ⊎ (any (λ q. q == port) p.allowed_ports ≡ true)))
unfolding checks_port
checks_port_iff p u = elim (effective_port-cases u) [
  | inl (reason, e) ↦ ((λ h. absurd (ground (arith, h, e))), (λ h. absurd (ground (arith, h.1, e))))
  | inr (port, e) ↦ ((λ h. (port, e, ground (arith, h, e))), (λ h. ground (arith, h.1, h.2, e)))
]

accepts : Policy → Url → Bool
accepts p u = checks_host (normalized p) u && checks_port (normalized p) u

accepts_iff : (p : Policy) (u : Url) → (accepts p u ≡ true) ↔ IsAllowedUrl p u
unfolding accepts normalized
accepts_iff p u = (
  λ h.
      let (host, port) = &&-eq-true (checks_host (normalized p) u) _ h in
      let (a, b, c, d, e) = (checks_host_iff (normalized p) u).0 host in
      let (n, has, allowed) = (checks_port_iff (normalized p) u).0 port in
      (a, b, c, d, e, (n, (effective_port_iff u n).0 has, (allowed_iff p n).0 allowed)),
  λ h.
      let host = (checks_host_iff (normalized p) u).1 (h.0, h.1, h.2, h.3, h.4) in
      let (n, has, allowed) = h.5 in
      let port =
        (checks_port_iff (normalized p) u).1
          (n, (effective_port_iff u n).1 has, (allowed_iff p n).1 allowed) in
      rw (host, port) refl,
)

-- A URL is accepted for delivery exactly if net/url parses it, its scheme is https or, where the policy
-- allows plain HTTP, http, it has a host name and no credentials and no fragment, its host holds no
-- carriage return, line feed or NUL, and the policy allows its port: a decimal numeral from 1 to 65535,
-- or, where the URL has none, 443 for https and 80 otherwise. A policy allows any port if it says so,
-- the ports that it lists, and 443 if it lists none.
pub validate_url_iff :
    (parse : Text → Option Url) (raw : Text) (p : Policy) (u : Url)
    → (validate_url parse raw p ≡ passed u) ↔ ((parse raw ≡ some u) × IsAllowedUrl p u)
unfolding validate_url accepts
validate_url_iff parse raw p u = elim (Option-cases (parse raw)) [
  | inl e ↦ ((λ h. absurd (ground (arith, h, e))), (λ h. absurd (ground (arith, h.0, e))))
  | inr (v, e) ↦ elim (Bool-cases (checks_host (normalized p) v && checks_port (normalized p) v)) [
    | inr c ↦ (
      (λ h. absurd (ground (arith, h, e, c))),
      (λ h. absurd (
          ground (
            arith,
            c,
            subst (λ w. accepts p w ≡ true) (sym (some_eq (sym e ∙ h.0))) ((accepts_iff p u).1 h.1),
          ))),
    )
    | inl c ↦ (
      (λ h.
          let same : v ≡ u = ground (arith, h, e, c) in
          (
            e ∙ ap (λ w. some w) same,
            (accepts_iff p u).0 (subst (λ w. accepts p w ≡ true) same c),
          )),
      (λ h. ground (arith, h.0, e, c)),
    )
  ]
]
