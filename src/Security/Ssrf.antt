-- ===== src/Security/Ssrf.antt =====
-- glc/security/ssrf.py: the guarded fetch of a URL that a caller supplied. URL parsing, addresses, name
-- resolution and the HTTP client are libraries, taken from a `Network`. A name may resolve differently
-- at every hop, and a server may answer differently.
pub mod Body
pub mod Laws
mod Tests
use glc_v.Prelude.{
  ℕ, zero, suc, Bool, false, ◌&&◌, ◌||◌, Option, none, some, List, [], ◌∷◌, if◌then◌else◌, is_empty,
  any, ◌==◌, ℕ-Eq, String-Eq, ×-Eq, List-Eq, Exn, Result, ◌>>=◌, http, ok, raise,
}
use glc_v.Text.{Text}
use glc_v.Security.Ssrf.Body.{refused, read_body}
use glc_v.Glob.{codes}

abbrev pub max_redirects : ℕ
max_redirects = 4

-- What `ipaddress` says of an address.
pub record Flags : Type 0 where
  pub is_private : Bool
  pub is_loopback : Bool
  pub is_link_local : Bool
  pub is_reserved : Bool
  pub is_multicast : Bool
  pub is_unspecified : Bool

-- An IPv6 address comes with `is_site_local`, `ipv4_mapped` and `sixtofour`.
pub data IpAddress : Type 0 where
  v4 : Flags → IpAddress
  v6 : Flags → Bool → Option Flags → Option Flags → IpAddress

unfoldable pub is_special : Flags → Bool
is_special f =
    f.is_private || f.is_loopback || f.is_link_local || f.is_reserved || f.is_multicast
    || f.is_unspecified

abbrev embedded : Option Flags → Option Flags → Option Flags
embedded (some f) sixtofour = some f
embedded none sixtofour = sixtofour

abbrev embeds_special : Option Flags → Bool
embeds_special none = false
embeds_special (some f) = is_special f

-- `_ip_is_forbidden`; an embedded address is an IPv4 one
unfoldable pub ip_is_forbidden : IpAddress → Bool
unfolding is_special
ip_is_forbidden (v4 f) = is_special f
ip_is_forbidden (v6 f site_local mapped sixtofour) =
    is_special f || site_local || embeds_special (embedded mapped sixtofour)

pub data Response : Type 0 where
  -- a redirect with its Location header
  redirect : Option Text → Response
  -- an HTTPError: `raise_for_status` raises, or the transport failed before the body
  failed : Response
  -- any other exception of the client, which goes on to the caller
  raised : Exn → Response
  -- the declared length if the header is a number, the chunks, whether the stream ends well, and
  -- the content type
  body : Option ℕ → List (List ℕ) → Bool → Option Text → Response

-- What `connect_tcp` dials: a pinned address, or a name that it leaves to the system to resolve.
pub data Dial : Type 0 where
  address : IpAddress → Dial
  unpinned : Text → Dial

-- The libraries. `httpx_host` is the host that the client asks its backend to connect to. The number
-- is that of the hop.
pub record Network : Type 0 where
  -- `urlparse(url).scheme`; `urlparse` raises on a malformed URL
  pub scheme : Text → Result Text
  pub hostname : Text → Option Text
  pub httpx_host : Text → Text
  pub join : Text → Text → Result Text
  pub lower : Text → Text
  pub ip_address : Text → Option IpAddress
  pub getaddrinfo : ℕ → Text → Option (List Text)
  pub respond : ℕ → Dial → Text → Response

-- `raw.split("%")[0]`
unfoldable pub before_percent : Text → Text
before_percent [] = []
before_percent (c ∷ cs) = let rest = before_percent cs in if c == b'%' then [] else c ∷ rest

-- The loop over `infos`, which skips what is no address.
unfoldable pub read_addresses : Network → List Text → List IpAddress
unfolding before_percent
read_addresses net [] = []
read_addresses net (raw ∷ raws) =
    let rest = read_addresses net raws in
    elim (net.ip_address (before_percent raw)) [ none ↦ rest | some ip ↦ ip ∷ rest ]

abbrev some_addresses : List IpAddress → Result (List IpAddress)
some_addresses [] = refused
some_addresses (ip ∷ ips) = ok (ip ∷ ips)

-- `_resolve_ips`
unfoldable pub resolve_ips : Network → ℕ → Text → Result (List IpAddress)
unfolding read_addresses
resolve_ips net hop host = elim (net.ip_address host) [
  | some ip ↦ ok (ip ∷ [])
  | none ↦ elim (net.getaddrinfo hop host) [
    | none ↦ refused
    | some raws ↦ some_addresses (read_addresses net raws)
  ]
]

pub record SafeTarget : Type 0 where
  pub url : Text
  pub hostname : Text
  pub pinned_ip : IpAddress

-- The check of every address, and the first as the pin.
abbrev pub pin_first : Text → Text → List IpAddress → Result SafeTarget
pin_first url host [] = refused
pin_first url host (ip ∷ ips) =
    if any ip_is_forbidden (ip ∷ ips)
    then refused
    else ok (record { url = url; hostname = host; pinned_ip = ip })

abbrev pub has_host : Option Text → Result Text
has_host none = refused
has_host (some []) = refused
has_host (some (c ∷ cs)) = ok (c ∷ cs)

abbrev is_http : Text → Bool
is_http s = s == codes "http" || s == codes "https"

-- `prepare_safe_target`
unfoldable pub prepare_safe_target : Network → ℕ → Text → Result SafeTarget
unfolding resolve_ips ip_is_forbidden
prepare_safe_target net hop url = net.scheme url >>= λ scheme.
    if is_http scheme
    then (has_host (net.hostname url) >>= λ host.
        resolve_ips net hop host >>= λ ips. pin_first url host ips)
    else refused

-- `host.rstrip(".")`
unfoldable pub strip_dots : Text → Text
strip_dots [] = []
strip_dots (c ∷ cs) =
    let rest = strip_dots cs in if is_empty rest && c == b'.' then [] else c ∷ rest

-- The key of `_PinningBackend`'s table.
unfoldable pub pin_key : Network → Text → Text
unfolding strip_dots
pin_key net host = strip_dots (net.lower host)

-- `connect_tcp`: the pin of the host, else the host itself
unfoldable pub connect_tcp : Network → SafeTarget → Text → Dial
unfolding pin_key
connect_tcp net t asked =
    if pin_key net t.hostname == pin_key net asked then address t.pinned_ip else unpinned asked

-- A fetch with what it dialled, in order.
abbrev pub Fetched : Type 0
Fetched = Result (List ℕ × Text) × List Dial

abbrev pub dialled : Dial → Fetched → Fetched
dialled d (r, ds) = (r, d ∷ ds)

abbrev pub location_of : Option Text → Result Text
location_of none = refused
location_of (some []) = refused
location_of (some (c ∷ cs)) = ok (c ∷ cs)

abbrev pub go_on : Dial → (Text → Fetched) → Result Text → Fetched
go_on d follow (raise e) = (raise e, d ∷ [])
go_on d follow (ok next) = dialled d (follow next)

-- What the answer at `current` leads to: a redirect goes on with `follow`.
unfoldable pub answer : Network → Dial → Text → (Text → Fetched) → Response → Fetched
unfolding read_body
answer net d current follow failed = (refused, d ∷ [])
answer net d current follow (raised e) = (raise e, d ∷ [])
answer net d current follow (body declared chunks completes content_type) =
    (read_body declared chunks completes content_type, d ∷ [])
answer net d current follow (redirect location) =
    go_on d follow (location_of location >>= net.join current)

-- The request for `current`, once it is checked.
unfoldable pub visit : Network → ℕ → Text → (Text → Fetched) → Result SafeTarget → Fetched
unfolding connect_tcp answer
visit net hop current follow (raise e) = (raise e, [])
visit net hop current follow (ok t) =
    let d = connect_tcp net t (net.httpx_host current) in
    answer net d current follow (net.respond hop d current)

-- The loop of `fetch_bytes`: the hops that are left, the number of this one, and `current`.
unfoldable pub fetch_hops : Network → ℕ → ℕ → Text → Fetched
unfolding prepare_safe_target visit
fetch_hops net zero hop current = (refused, [])
fetch_hops net (suc left) hop current =
    visit net hop current (fetch_hops net left (suc hop)) (prepare_safe_target net hop current)

-- `fetch_bytes`
unfoldable pub fetch_bytes : Network → Text → Fetched
unfolding fetch_hops
fetch_bytes net url = fetch_hops net (suc max_redirects) 0 url
