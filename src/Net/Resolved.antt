-- ===== src/Net/Resolved.antt =====
-- The address that `resolveTcpEndpoint` (src/Net.cpp) chooses.
use flux_gate.Base.{
  ℕ, ◌≤◌, ◌<◌, ◌≡◌, refl, ap, inl, inr, false, List, [], ◌∷◌, ◌++◌, length, leb, Result, ok, err,
  ok-injective, Bool-cases, leb→le, leb→lt,
}
use flux_gate.Backend.{Bytes, Endpoint}
use flux_gate.Config.Text.{codes, is_blank}
use flux_gate.Decimal.{to_decimal}
use flux_gate.Net.Address.{
  Resolver, storage_size, first_fitting, endpoint_from, endpoint_of, resolve_tcp_endpoint,
}

abbrev pub AllTooLong : List Bytes → Type 0
AllTooLong [] = Unit {0}
AllTooLong (a ∷ more) = (storage_size < length a) × AllTooLong more

-- The first address of a list that fits.
pub record IsFirstFitting (items : List Bytes) (address : Bytes) : Type 0 where
  pub before : List Bytes
  pub after : List Bytes
  pub split : items ≡ before ++ (address ∷ after)
  pub passed : AllTooLong before
  pub fits : length address ≤ storage_size

first_fitting-IsFirstFitting :
    (items : List Bytes)
    → is_blank (first_fitting items) ≡ false
    → IsFirstFitting items (first_fitting items)
first_fitting-IsFirstFitting [] h = cc
first_fitting-IsFirstFitting (a ∷ more) h = elim (Bool-cases (leb (length a) storage_size)) [
  | inl fits ↦ rw fits (record {
    before = [];
    after = more;
    split = refl;
    passed = tt;
    fits = leb→le (length a) storage_size fits;
  })
  | inr long ↦
      let r = first_fitting-IsFirstFitting more (rw long at h) in
      rw long (record {
        before = a ∷ r.before;
        after = r.after;
        split = ap (λ t. a ∷ t) r.split;
        passed = (leb→lt (length a) storage_size long, r.passed);
        fits = r.fits;
      })
]

-- An endpoint that is returned, from the answer of getaddrinfo().
pub record IsResolved (items : List Bytes) (service : Bytes) (e : Endpoint) : Type 0 where
  pub first : IsFirstFitting items e.address
  pub filled : is_blank e.address ≡ false
  pub shown : (text : Bytes) × (e.text ≡ text ++ codes ":" ++ service)

module _ (r : Resolver) (host service : Bytes) where
  endpoint_from-IsResolved :
      (items : List Bytes) (e : Endpoint)
      → endpoint_from r host service (first_fitting items) ≡ ok e
      → IsResolved items service e
  endpoint_from-IsResolved items e h = elim (Bool-cases (is_blank (first_fitting items))) [
    | inl blank ↦ cc (rw blank at h)
    | inr filled ↦ rw⁻¹ (ok-injective _ e (rw filled at h)) (record {
      first = first_fitting-IsFirstFitting items filled;
      filled = filled;
      shown = (_, refl);
    })
  ]

  endpoint_of-IsResolved :
      (answer : Result ℕ (List Bytes)) (e : Endpoint)
      → endpoint_of r host service answer ≡ ok e
      → (items : List Bytes) × (answer ≡ ok items) × IsResolved items service e
  endpoint_of-IsResolved (ok items) e h = (items, refl, endpoint_from-IsResolved items e h)
  endpoint_of-IsResolved (err code) e h = cc

-- When `resolveTcpEndpoint` returns, its address is not empty and is the first of getaddrinfo()'s
-- list that fits a sockaddr_storage, and its text ends in a colon and the port in decimal.
pub resolve_tcp_endpoint-IsResolved :
    (r : Resolver) (host : Bytes) (port : ℕ) (e : Endpoint)
    → resolve_tcp_endpoint r host port ≡ ok e
    → (items : List Bytes) × (r.addresses host (to_decimal port) ≡ ok items)
      × IsResolved items (to_decimal port) e
unfolding resolve_tcp_endpoint
resolve_tcp_endpoint-IsResolved r host port e h =
    endpoint_of-IsResolved r host (to_decimal port) (r.addresses host (to_decimal port)) e h
