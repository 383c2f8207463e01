-- ===== src/Extension/Tests.antt =====
-- A page on this machine and a page of the web, and the theorems of apps/extension/src/security.ts at them.
use Prim.Native.String.{◌++◌}
use tabgrant.Common.{
  ◌≤◌, ◌≡◌, ◌≢◌, ◌↔◌, refl, inr, String, true, false, ◌||◌, Option, none, some, ◌===◌,
  if◌then◌else◌,
}
use tabgrant.Protocol.Platform.{Platform, Url}
use tabgrant.Protocol.Text.{text_length}
use tabgrant.Protocol.Primitives.{allowed_url, is_allowed_origin}
use tabgrant.Extension.Security.{
  is_loopback_hostname, ends_with, split_dots, same_codes, grantable_url, grantable_origin,
  same_origin_navigation, broker_status, locked,
}
use tabgrant.Extension.Loopback.{IsLoopback, is_loopback_hostname_iff}
use tabgrant.Extension.SecurityLaws.{
  IsGrantable, grantable_origin_iff, same_origin_navigation_sound,
}

abbrev local : Url
local = record {
  href = "http://app.localhost:3000/x";
  origin = "http://app.localhost:3000";
  protocol = "http:";
  hostname = "app.localhost";
  username = "";
  password = "";
}

abbrev site : Url
site = record {
  href = "https://a.test/x";
  origin = "https://a.test";
  protocol = "https:";
  hostname = "a.test";
  username = "";
  password = "";
}

abbrev plain : Platform
plain = record {
  new_url = λ t.
      if t === "https://a.test/x" || t === "https://a.test"
      then some site
      else if t === "http://app.localhost:3000"
      then some local
      else none;
  to_lower_case = λ t. t;
  normalize_nfc = λ t. t;
  quote = λ t. t;
  sha256_hex = λ t. t;
  hmac_sha256_hex = λ secret t. t;
  number_text = λ n. "7";
  without_query_and_hash = λ t. t;
  is_uuid = λ t. true;
}

abbrev resolved : String → String → Option Url
resolved target base = if base === "https://a.test/" then some site else none

local_loopback : is_loopback_hostname plain "app.localhost" ≡ true
unfolding is_loopback_hostname ends_with split_dots
local_loopback = refl

numeric_loopback : is_loopback_hostname plain "127.0.0.2" ≡ true
unfolding is_loopback_hostname ends_with split_dots
numeric_loopback = refl

local-IsGrantable : IsGrantable plain local
local-IsGrantable = record {
  no_username = refl;
  no_password = refl;
  safe = inr (refl, local_loopback);
  open_origin = refl;
}

-- The extension offers the page, and the protocol does not know its origin.
offered_lem : grantable_url plain local ≡ true
unfolding grantable_url is_loopback_hostname ends_with split_dots same_codes
offered_lem = refl

unknown_lem : is_allowed_origin plain "http://app.localhost:3000" ≡ false
unfolding is_allowed_origin allowed_url
unknown_lem = refl

is_loopback_hostname_iff_example :
    (is_loopback_hostname plain "127.0.0.1" ≡ true) ↔ IsLoopback (plain.to_lower_case "127.0.0.1")
is_loopback_hostname_iff_example = is_loopback_hostname_iff plain "127.0.0.1"

grantable_origin_iff_example :
    (grantable_origin plain (some "https://a.test/x") ≡ some "https://a.test") ↔ (
      (◌≢◌ {A = String} "https://a.test/x" "")
      × ((url : Url) × ((plain.new_url "https://a.test/x" ≡ some url)
            × (IsGrantable plain url × (url.origin ≡ "https://a.test")))))
grantable_origin_iff_example = grantable_origin_iff plain "https://a.test/x" "https://a.test"

navigated : same_origin_navigation plain resolved "https://a.test" "/x" ≡ some "https://a.test/x"
unfolding same_origin_navigation grantable_origin grantable_url text_length
navigated = refl

same_origin_navigation_sound_example :
    (url : Url) × ((resolved "/x" ("https://a.test" ++ "/") ≡ some url)
      × ((url.href ≡ "https://a.test/x")
          × ((url.origin ≡ "https://a.test")
              × ((text_length "https://a.test/x" ≤ 2048)
                  × (grantable_origin plain (some "https://a.test/x") ≡ some "https://a.test")))))
same_origin_navigation_sound_example =
    same_origin_navigation_sound plain resolved "https://a.test" "/x" "https://a.test/x" navigated

killed_lem : broker_status true true true true ≡ ("Broker locked", locked)
unfolding broker_status
killed_lem = refl
