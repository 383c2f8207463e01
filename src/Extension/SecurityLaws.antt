-- ===== src/Extension/SecurityLaws.antt =====
-- apps/extension/src/security.ts: which addresses can be granted, against packages/protocol/src/primitives.ts,
-- and where a granted page may go.
use Prim.Native.String.{◌++◌}
use tabgrant.Common.{
  ◌≤◌, ◌≡◌, ◌≢◌, ◌⊎◌, ◌↔◌, ap, String, true, false, not, ◌||◌, Option, none, some, inl, inr, arith,
  Bool-cases, Option-cases, ltb, ◌===◌, ===_iff,
}
use tabgrant.Protocol.Platform.{Platform, Url}
use tabgrant.Protocol.Text.{text_length}
use tabgrant.Extension.Security.{
  is_loopback_hostname, is_blocked, grantable_url, grantable_origin, is_origin, navigation_to,
  same_origin_navigation,
}

-- A URL without credentials, of HTTPS or of HTTP on this machine, and not of Chrome's own shops.
pub record IsGrantable (p : Platform) (url : Url) : Type 0 where
  pub no_username : url.username ≡ ""
  pub no_password : url.password ≡ ""
  pub safe :
      (url.protocol ≡ "https:")
      ⊎ ((url.protocol ≡ "http:") × (is_loopback_hostname p url.hostname ≡ true))
  pub open_origin : is_blocked url.origin ≡ false

grantable_url_iff : (p : Platform) (url : Url) → (grantable_url p url ≡ true) ↔ IsGrantable p url
unfolding grantable_url
grantable_url_iff p url =
    let name = ===_iff url.username "" in
    let word = ===_iff url.password "" in
    let https = ===_iff url.protocol "https:" in
    let http = ===_iff url.protocol "http:" in
    (
      (λ e. record {
        no_username = name.0 (ground arith);
        no_password = word.0 (ground arith);
        safe = elim (Bool-cases (url.protocol === "https:")) [
          | inl yes' ↦ inl (https.0 yes')
          | inr no' ↦ inr (http.0 (ground arith), ground arith)
        ];
        open_origin = ground arith;
      }),
      (λ g.
          let a = name.1 g.no_username in
          let b = word.1 g.no_password in
          let d = g.open_origin in
          elim g.safe [
            | inl secure ↦ let c = https.1 secure in ground arith
            | inr (plain, here) ↦ let c = http.1 plain in ground arith
          ]),
    )

-- `grantableOrigin` returns an origin exactly when the address is not empty and parses to a grantable URL of that
-- origin.
pub grantable_origin_iff :
    (p : Platform) (raw o : String)
    → (grantable_origin p (some raw) ≡ some o) ↔ (
        (raw ≢ "")
        × ((url : Url) × ((p.new_url raw ≡ some url) × (IsGrantable p url × (url.origin ≡ o)))))
unfolding grantable_origin
grantable_origin_iff p raw o = (forward, backward)
  where
    forward :
        grantable_origin p (some raw) ≡ some o
        → (raw ≢ "")
          × ((url : Url) × ((p.new_url raw ≡ some url) × (IsGrantable p url × (url.origin ≡ o))))
    forward e = elim (Bool-cases (raw === "")) [
      | inl blank ↦ absurd (cc (rw (grantable_origin, blank) at e))
      | inr there ↦ elim (Option-cases (p.new_url raw)) [
        | inl bad ↦ absurd (cc (rw (grantable_origin, there, bad) at e))
        | inr (url, parses) ↦ elim (Bool-cases (grantable_url p url)) [
          | inr unfit ↦ absurd (cc (rw (grantable_origin, there, parses, unfit) at e))
          | inl fits ↦
              let is : some url.origin ≡ some o = rw (grantable_origin, there, parses, fits) at e in
              (
                (λ q. let same = (===_iff raw "").1 q in cc),
                (url, (parses, ((grantable_url_iff p url).0 fits, cc))),
              )
        ]
      ]
    ]

    backward :
        (raw ≢ "")
          × ((url : Url) × ((p.new_url raw ≡ some url) × (IsGrantable p url × (url.origin ≡ o))))
        → grantable_origin p (some raw) ≡ some o
    backward (there, (url, (parses, (good, is)))) = elim (Bool-cases (raw === "")) [
      | inl blank ↦ absurd (there ((===_iff raw "").0 blank))
      | inr full ↦
          rw (grantable_origin, full, parses, (grantable_url_iff p url).1 good) (ap some is)
    ]

is_origin-some :
    (current : String) (o : Option String) → is_origin current o ≡ true → o ≡ some current
is_origin-some current none e = absurd (cc)
is_origin-some current (some o) e = ap some ((===_iff o current).0 e)

navigation_to_sound :
    (p : Platform) (current href : String) (url : Url)
    → navigation_to p current (some url) ≡ some href
    → (url.href ≡ href)
      × ((url.origin ≡ current)
          × ((text_length href ≤ 2048) × (grantable_origin p (some href) ≡ some current)))
navigation_to_sound p current href url e =
    let found = grantable_origin p (some url.href) in
    elim (Bool-cases (ltb 2048 (text_length url.href) || not (is_origin current found))) [
      | inl refused ↦ absurd (cc (rw refused at e))
      | inr taken ↦ elim (Bool-cases (url.origin === current)) [
        | inr other ↦ absurd (cc (rw (taken, other) at e))
        | inl same ↦
            let is : url.href ≡ href = cc (rw (taken, same) at e) in
            let good : found ≡ some current = is_origin-some current found (ground arith) in
            (is, ((===_iff url.origin current).0 same, (rw (← is) (ground arith), rw (← is) good)))
      ]
    ]

-- `sameOriginNavigation` only returns the address that the target resolves to, of at most 2048 units, with the
-- current origin, which can be granted.
pub same_origin_navigation_sound :
    (p : Platform) (resolve : String → String → Option Url) (current target href : String)
    → same_origin_navigation p resolve current target ≡ some href
    → (url : Url) × ((resolve target (current ++ "/") ≡ some url)
        × ((url.href ≡ href)
            × ((url.origin ≡ current)
                × ((text_length href ≤ 2048) × (grantable_origin p (some href) ≡ some current)))))
unfolding same_origin_navigation
same_origin_navigation_sound p resolve current target href e =
    elim (Option-cases (resolve target (current ++ "/"))) [
      | inl bad ↦ absurd (cc (rw (same_origin_navigation, bad) at e))
      | inr (url, to) ↦
          let e' : navigation_to p current (some url) ≡ some href =
            rw (same_origin_navigation, to) at e in
          let (is, (origin, (short, good))) = navigation_to_sound p current href url e' in
          (url, (to, (is, (origin, (short, good)))))
    ]
