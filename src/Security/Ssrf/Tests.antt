-- ===== src/Security/Ssrf/Tests.antt =====
-- A network of two public hosts and a private one, and fetches over it.
use glc_v.Prelude.{
  ℕ, ◌+◌, ◌≤◌, ◌≡◌, refl, true, false, ◌&&◌, ◌||◌, Option, none, some, List, [], ◌∷◌, if◌then◌else◌,
  length, All, ◌==◌, ℕ-Eq, String-Eq, ×-Eq, List-Eq, http, ok, raise,
}
use glc_v.Text.{Text}
use glc_v.Glob.{codes}
use glc_v.Security.Ssrf.Body.{max_image_bytes}
use glc_v.Security.Ssrf.{
  Flags, Network, max_redirects, IpAddress, Response, Dial, fetch_bytes, v4, redirect, body,
  address,
}
use glc_v.Security.Ssrf.Laws.{IsPinned, content_length, fetch_bytes-IsPinned, fetch_bytes-bounds}

abbrev public_flags : Flags
public_flags = record {
  is_private = false;
  is_loopback = false;
  is_link_local = false;
  is_reserved = false;
  is_multicast = false;
  is_unspecified = false;
}

abbrev private_flags : Flags
private_flags = record public_flags { is_private = true }

-- The addresses are the texts of one character.
abbrev demo_address : Text → Option IpAddress
demo_address (c ∷ []) = some (v4 (if c == b'9' then private_flags else public_flags))
demo_address _ = none

-- The host aa answers at the first hop, bb redirects, and its name turns private at the second hop.
abbrev demo_names : ℕ → Text → Option (List Text)
demo_names hop host =
    if host == codes "cc" || (host == codes "bb" && hop == 1)
    then some (codes "1" ∷ codes "9" ∷ [])
    else some (codes "1%eth0" ∷ [])

abbrev demo_respond : ℕ → Dial → Text → Response
demo_respond hop d url =
    if url == codes "aa"
    then body none ((1 ∷ 2 ∷ []) ∷ (3 ∷ []) ∷ []) true (some (codes "image/gif; q=1"))
    else redirect (some (if hop == 0 then codes "bb" else codes "aa"))

abbrev demo : Network
demo = record {
  scheme = λ url. ok (codes "https");
  hostname = λ url. some url;
  httpx_host = λ url. url;
  join = λ base location. ok location;
  lower = λ s. s;
  ip_address = demo_address;
  getaddrinfo = demo_names;
  respond = demo_respond;
}

fetch_aa :
    fetch_bytes demo (codes "aa")
    ≡ (ok (1 ∷ 2 ∷ 3 ∷ [], codes "image/gif"), address (v4 public_flags) ∷ [])
unfolding fetch_bytes
fetch_aa = refl

-- The name of bb is checked again at the second hop.
fetch_rebound : fetch_bytes demo (codes "bb") ≡ (raise (http 400), address (v4 public_flags) ∷ [])
unfolding fetch_bytes
fetch_rebound = refl

fetch_private : fetch_bytes demo (codes "cc") ≡ (raise (http 400), [])
unfolding fetch_bytes
fetch_private = refl

fetch_bytes-IsPinned_example : All (IsPinned demo) (fetch_bytes demo (codes "bb")).1
fetch_bytes-IsPinned_example = fetch_bytes-IsPinned demo (codes "bb")

fetch_bytes-bounds_example :
    (length (fetch_bytes demo (codes "aa")).1 ≤ max_redirects + 1)
    × (content_length (fetch_bytes demo (codes "aa")).0 ≤ max_image_bytes)
fetch_bytes-bounds_example = fetch_bytes-bounds demo (codes "aa")
