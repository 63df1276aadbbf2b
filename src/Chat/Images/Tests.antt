-- ===== src/Chat/Images/Tests.antt =====
-- A request with a text, a picture on the web and one of its own, over a network where every name has one
-- address. The second fetch finds the address private.
use glc_v.Prelude.{
  String, ◌≡◌, refl, Bool, true, false, none, some, [], ◌∷◌, ◌==◌, ℕ-Eq, String-Eq, ×-Eq, List-Eq,
  http, ok, raise,
}
use glc_v.Prelude.Value.{Fields, text, array, end, field, nil, cons}
use glc_v.Glob.{codes}
use glc_v.Security.Ssrf.{Flags, Network, v4, body, address}
use glc_v.Chat.Images.{ImageHost, picture_of, resolve_image_urls}
use glc_v.Chat.Images.Guarded.{IsGuarded, AreResolved, resolve_image_urls-IsGuarded}

abbrev flags_of : Bool → Flags
flags_of private = record {
  is_private = private;
  is_loopback = false;
  is_link_local = false;
  is_reserved = false;
  is_multicast = false;
  is_unspecified = false;
}

abbrev gallery : Bool → Network
gallery private = record {
  scheme = λ url. ok (codes "http");
  hostname = λ url. some url;
  httpx_host = λ url. url;
  join = λ base location. ok location;
  lower = λ s. s;
  ip_address = λ s. some (v4 (flags_of private));
  getaddrinfo = λ hop host. none;
  respond = λ hop dial url. body none ((1 ∷ 2 ∷ []) ∷ []) true (some (codes "image/gif"));
}

abbrev host : ImageHost
host = record {
  b64encode = λ bytes. "AQI=";
  as_string = λ t. "image/gif";
  network_at = λ n. gallery (n == 1);
}

abbrev asked : String → Fields
asked url = field "content" (array (cons (text "look") (cons (picture_of url) nil))) end

resolved : resolve_image_urls host 0 (asked "http://a/b" ∷ asked "data:,x" ∷ []) ≡ (
  ok (asked "data:image/gif;base64,AQI=" ∷ asked "data:,x" ∷ []),
  (1, address (v4 (flags_of false)) ∷ []),
)
unfolding resolve_image_urls
resolved = refl

refused_later :
    (resolve_image_urls host 0 (asked "http://a/b" ∷ asked "https://a/b" ∷ [])).0 ≡ raise (http 400)
unfolding resolve_image_urls
refused_later = refl

resolve_image_urls-IsGuarded_example :
    IsGuarded host
      (AreResolved (asked "http://a/b" ∷ asked "data:,x" ∷ []))
      (resolve_image_urls host 0 (asked "http://a/b" ∷ asked "data:,x" ∷ []))
resolve_image_urls-IsGuarded_example =
    resolve_image_urls-IsGuarded host 0 (asked "http://a/b" ∷ asked "data:,x" ∷ [])
