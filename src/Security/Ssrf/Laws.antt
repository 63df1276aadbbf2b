-- ===== src/Security/Ssrf/Laws.antt =====
-- What a guarded fetch dials, and what it returns.
use glc_v.Prelude.{
  ℕ, zero, suc, ◌+◌, ◌≤◌, ◌≡◌, refl, ap, ◌≢◌, inl, inr, Bool, false, Option, none, some, List, [],
  ◌∷◌, arith, Bool-cases, length, All, ◌==◌, ==-refl, ℕ-Eq, String-Eq, ×-Eq, List-Eq, Exn, Result,
  ◌>>=◌, ok-injective, Result-cases, http, ok, raise,
}
use glc_v.Text.{Text}
use glc_v.Security.Ssrf.Body.{max_image_bytes, read_body, read_body_bound}
use glc_v.Security.Ssrf.{
  Network, SafeTarget, max_redirects, IpAddress, ip_is_forbidden, Response, Dial, resolve_ips,
  pin_first, has_host, prepare_safe_target, pin_key, connect_tcp, Fetched, dialled, location_of,
  go_on, answer, visit, fetch_hops, fetch_bytes, redirect, failed, raised, body, address, unpinned,
}

-- The connection went to an address that is not forbidden, or to a name that the client makes of a URL
-- and that has another key in the table of pins than the host that was checked for the URL.
abbrev pub IsPinned : Network → Dial → Type 0
IsPinned net (address ip) = ip_is_forbidden ip ≡ false
IsPinned net (unpinned name) =
    (url : Text) × (checked : Text) × (net.hostname url ≡ some checked)
    × (name ≡ net.httpx_host url)
    × (pin_key net checked ≢ pin_key net name)

pin_first-safe :
    (url host : Text) (ips : List IpAddress) (t : SafeTarget)
    → pin_first url host ips ≡ ok t
    → (t.hostname ≡ host) × (ip_is_forbidden t.pinned_ip ≡ false)
pin_first-safe url host [] t e = absurd (ground (arith, e))
pin_first-safe url host (ip ∷ ips) t e = ground (arith, e)

has_host-some : (o : Option Text) (host : Text) → has_host o ≡ ok host → o ≡ some host
has_host-some none host e = absurd (ground (arith, e))
has_host-some (some []) host e = absurd (ground (arith, e))
has_host-some (some (c ∷ cs)) host e = ap some (ok-injective e)

-- A property of what was fetched and dialled that every way out of an answer has.
module _ (P : Fetched → Type 0) (net : Network) (d : Dial) (url : Text) (follow : Text → Fetched)
    (refuses : (e : Exn) → P (raise e, d ∷ []))
    (follows : (next : Text) → P (dialled d (follow next)))
    (reads : (r : Result (List ℕ × Text)) (declared : Option ℕ) (chunks : List (List ℕ))
        (completes : Bool) (ctype : Option Text)
      → read_body declared chunks completes ctype ≡ r
      → P (r, d ∷ [])) where
  go_on-keeps : (r : Result Text) → P (go_on d follow r)
  go_on-keeps (raise e) = refuses e
  go_on-keeps (ok next) = follows next

  answer-keeps : (r : Response) → P (answer net d url follow r)
  unfolding answer
  answer-keeps failed = refuses (http 400)
  answer-keeps (raised e) = refuses e
  answer-keeps (body declared chunks completes ctype) =
      reads (read_body declared chunks completes ctype) declared chunks completes ctype refl
  answer-keeps (redirect location) = go_on-keeps (location_of location >>= net.join url)

abbrev pub content_length : Result (List ℕ × Text) → ℕ
content_length (raise e) = 0
content_length (ok (bytes, kind)) = length bytes

module _ (net : Network) where
  prepared-safe :
      (hop : ℕ) (url : Text) (t : SafeTarget)
      → prepare_safe_target net hop url ≡ ok t
      → (net.hostname url ≡ some t.hostname) × (ip_is_forbidden t.pinned_ip ≡ false)
  unfolding prepare_safe_target
  prepared-safe hop url t e = elim (Result-cases (net.scheme url)) [
    | inr (x, q) ↦ absurd (ground (arith, e, q))
    | inl (scheme, q) ↦ elim (Result-cases (has_host (net.hostname url))) [
      | inr (x, h) ↦ absurd (ground (arith, e, q, h))
      | inl (host, h) ↦ elim (Result-cases (resolve_ips net hop host)) [
        | inr (x, r) ↦ absurd (ground (arith, e, q, h, r))
        | inl (ips, r) ↦ ground (
          arith,
          e,
          q,
          h,
          r,
          has_host-some (net.hostname url) host,
          pin_first-safe url host ips t,
        )
      ]
    ]
  ]

  connected-IsPinned :
      (hop : ℕ) (url : Text) (t : SafeTarget)
      → prepare_safe_target net hop url ≡ ok t
      → IsPinned net (connect_tcp net t (net.httpx_host url))
  unfolding connect_tcp
  connected-IsPinned hop url t e =
      let (host, safe) = prepared-safe hop url t e in
      elim (Bool-cases (pin_key net t.hostname == pin_key net (net.httpx_host url))) [
        | inl y ↦ rw y safe
        | inr n ↦ rw n (
          url,
          t.hostname,
          host,
          refl,
          λ q. ground (arith, n, q, ==-refl (pin_key net t.hostname)),
        )
      ]

  visit-IsPinned :
      (hop : ℕ) (url : Text) (follow : Text → Fetched) (r : Result SafeTarget)
      → prepare_safe_target net hop url ≡ r
      → ((next : Text) → All (IsPinned net) (follow next).1)
      → All (IsPinned net) (visit net hop url follow r).1
  unfolding visit
  visit-IsPinned hop url follow (raise e) h k = tt
  visit-IsPinned hop url follow (ok t) h k =
      let d = connect_tcp net t (net.httpx_host url) in
      let safe = connected-IsPinned hop url t h in
      answer-keeps (λ f. All (IsPinned net) f.1) net d url follow (λ e. (safe, tt))
        (λ next. (safe, k next)) (λ r declared chunks completes ctype e. (safe, tt))
        (net.respond hop d url)

  fetch_hops-IsPinned :
      (left hop : ℕ) (url : Text) → All (IsPinned net) (fetch_hops net left hop url).1
  unfolding fetch_hops
  fetch_hops-IsPinned zero hop url = tt
  fetch_hops-IsPinned (suc left) hop url =
      visit-IsPinned hop url (fetch_hops net left (suc hop)) (prepare_safe_target net hop url) refl
        (fetch_hops-IsPinned left (suc hop))

  -- Whatever the servers and the name service answer, a fetch dials on every hop an address that is not
  -- forbidden; or a name, and then only one that the client makes of a URL for which the check reads a
  -- host with another key in the table of pins.
  pub fetch_bytes-IsPinned : (url : Text) → All (IsPinned net) (fetch_bytes net url).1
  unfolding fetch_bytes
  fetch_bytes-IsPinned url = fetch_hops-IsPinned (suc max_redirects) 0 url

  abbrev IsBounded : ℕ → Fetched → Type 0
  IsBounded most (r, ds) = (length ds ≤ most) × (content_length r ≤ max_image_bytes)

  read-IsBounded :
      (r : Result (List ℕ × Text)) (declared : Option ℕ) (chunks : List (List ℕ)) (completes : Bool)
      (ctype : Option Text)
      → read_body declared chunks completes ctype ≡ r
      → content_length r ≤ max_image_bytes
  read-IsBounded (raise e) declared chunks completes ctype h = omega arith
  read-IsBounded (ok (bytes, kind)) declared chunks completes ctype h =
      read_body_bound declared chunks completes ctype bytes kind h

  visit-IsBounded :
      (hop : ℕ) (url : Text) (follow : Text → Fetched) (most : ℕ) (r : Result SafeTarget)
      → ((next : Text) → IsBounded most (follow next))
      → IsBounded (suc most) (visit net hop url follow r)
  unfolding visit
  visit-IsBounded hop url follow most (raise e) k = (omega arith, omega arith)
  visit-IsBounded hop url follow most (ok t) k =
      let d = connect_tcp net t (net.httpx_host url) in
      answer-keeps (IsBounded (suc most)) net d url follow (λ e. (omega arith, omega arith))
        (λ next. (omega (arith, (k next).0), (k next).1))
        (λ r declared chunks completes ctype e.
          (omega arith, read-IsBounded r declared chunks completes ctype e))
        (net.respond hop d url)

  fetch_hops-IsBounded : (left hop : ℕ) (url : Text) → IsBounded left (fetch_hops net left hop url)
  unfolding fetch_hops
  fetch_hops-IsBounded zero hop url = (omega arith, omega arith)
  fetch_hops-IsBounded (suc left) hop url =
      visit-IsBounded hop url (fetch_hops net left (suc hop)) left (prepare_safe_target net hop url)
        (fetch_hops-IsBounded left (suc hop))

  -- A fetch makes at most one connection more than the redirects it may follow, and the content that
  -- it returns is no longer than the cap, whatever length the servers declare and however they split
  -- their answers.
  pub fetch_bytes-bounds :
      (url : Text)
      → (length (fetch_bytes net url).1 ≤ max_redirects + 1)
        × (content_length (fetch_bytes net url).0 ≤ max_image_bytes)
  unfolding fetch_bytes
  fetch_bytes-bounds url = fetch_hops-IsBounded (suc max_redirects) 0 url
