-- ===== src/Extension/Security.antt =====
-- apps/extension/src/security.ts: which pages can be granted, and where a granted page may go. What the
-- program reads of a form control is a record. apps/extension/src/popup-status.ts: what the popup says.
use Prim.Native.String
use tabgrant.Common.{
  ℕ, ◌+◌, ◌-◌, ◌*◌, String, Bool, true, false, not, ◌&&◌, ◌||◌, List, [], ◌∷◌, Option, none, some,
  leb, ltb, ◌==◌, ◌===◌, if◌then◌else◌, all, length, drop,
}
use tabgrant.Protocol.Platform.{Platform, Url}
use tabgrant.Protocol.Text.{codes, text_length, is_digit}

-- `text.split(".")`
abbrev before_dot : ℕ → List (List ℕ) → List (List ℕ)
before_dot c [] = (c ∷ []) ∷ []
before_dot c (l ∷ ls) = (c ∷ l) ∷ ls

unfoldable pub split_dots : List ℕ → List (List ℕ)
split_dots [] = [] ∷ []
split_dots (c ∷ cs) = let rest = split_dots cs in if c == b'.' then [] ∷ rest else before_dot c rest

-- `/^\d{1,3}$/`
abbrev pub is_octet : List ℕ → Bool
is_octet l = leb 1 (length l) && leb (length l) 3 && all is_digit l

-- `Number(text)` on decimal digits.
abbrev pub number_of : ℕ → List ℕ → ℕ
number_of n [] = n
number_of n (c ∷ cs) = number_of (n * 10 + (c - b'0')) cs

abbrev pub starts_127 : List (List ℕ) → Bool
starts_127 [] = false
starts_127 (l ∷ ls) = number_of 0 l == 127

unfoldable pub same_codes : List ℕ → List ℕ → Bool
same_codes [] [] = true
same_codes [] (y ∷ ys) = false
same_codes (x ∷ xs) [] = false
same_codes (x ∷ xs) (y ∷ ys) = x == y && same_codes xs ys

-- `text.endsWith(end)`
unfoldable pub ends_with : String → String → Bool
unfolding same_codes
ends_with text end =
    let xs = codes text in
    let ys = codes end in
    leb (length ys) (length xs) && same_codes (drop (length xs - length ys) xs) ys

-- `isLoopbackHostname`
unfoldable pub is_loopback_hostname : Platform → String → Bool
unfolding ends_with split_dots
is_loopback_hostname p hostname =
    let normalized = p.to_lower_case hostname in
    let octets = split_dots (codes normalized) in
    if normalized === "localhost" || ends_with normalized ".localhost" || normalized === "[::1]"
    then true
    else length octets == 4 && all is_octet octets && starts_127 octets

abbrev pub is_blocked : String → Bool
is_blocked origin =
    origin === "https://chrome.google.com" || origin === "https://chromewebstore.google.com"

-- The checks of `grantableOrigin` on a parsed URL.
unfoldable pub grantable_url : Platform → Url → Bool
unfolding is_loopback_hostname
grantable_url p url =
    (url.username === "")
    && (url.password === "")
    && (url.protocol === "https:"
        || (url.protocol === "http:" && is_loopback_hostname p url.hostname))
    && not (is_blocked url.origin)

abbrev pub grantable_parsed : Platform → Option Url → Option String
grantable_parsed p none = none
grantable_parsed p (some url) = if grantable_url p url then some url.origin else none

-- `grantableOrigin`; a missing address is `none`.
unfoldable pub grantable_origin : Platform → Option String → Option String
unfolding grantable_url
grantable_origin p none = none
grantable_origin p (some raw) = if raw === "" then none else grantable_parsed p (p.new_url raw)

abbrev pub is_origin : String → Option String → Bool
is_origin current none = false
is_origin current (some o) = o === current

abbrev pub navigation_to : Platform → String → Option Url → Option String
navigation_to p current none = none
navigation_to p current (some url) =
    if ltb 2048 (text_length url.href)
      || not (is_origin current (grantable_origin p (some url.href)))
    then none
    else if url.origin === current
    then some url.href
    else none

-- `sameOriginNavigation`; `resolve target base` is `new URL(target, base)`.
unfoldable pub same_origin_navigation :
    Platform → (String → String → Option Url) → String → String → Option String
unfolding grantable_origin text_length
same_origin_navigation p resolve current target =
    navigation_to p current (resolve target (String.◌++◌ current "/"))

pub data Tone : Type 0 where
  connected reachable offline locked : Tone

-- `brokerStatusPresentation`, with killed, connected, relay connected and browser paired.
unfoldable pub broker_status : Bool → Bool → Bool → Bool → String × Tone
broker_status killed broker relay paired =
    if killed
    then ("Broker locked", locked)
    else if broker
    then ("Broker connected", connected)
    else if relay
    then (if paired then ("Broker connecting", reachable) else ("Pairing required", reachable))
    else ("Broker offline", offline)
