-- ===== src/Broker/Consent.antt =====
-- What stands behind a lease that `grantAccess` of apps/broker/src/broker-state.ts makes: the user's
-- consent, given through the browser, to a request that an agent made.
use tabgrant.Common.{
  ℕ, ◌<◌, ◌≡◌, ◌↔◌, refl, sym, ap, ◌∙◌, subst, String, Bool, true, false, not, List, [], ◌∷◌, ◌++◌,
  Option, none, some, inl, inr, All, any, any-false_iff, arith, find, Option-cases, Bool-cases, leb,
  ===_iff,
}
use tabgrant.Protocol.Platform.{Platform, Url}
use tabgrant.Protocol.Primitives.{http_url}
use tabgrant.Protocol.Access.{Capability}
use tabgrant.Broker.Records.{
  AccessRequest, Lease, ConnectionContext, BrokerState, ok, request_has, includes_scope, is_pending,
}
use tabgrant.Broker.Lifecycle.{browser_of}
use tabgrant.Broker.Capability.{issue}
use tabgrant.Broker.Grants.{
  GrantParams, GrantIds, PublicLease, public_lease, same_option, url_matches, pending_request,
  capability_grant, new_lease, add_lease, grant_access,
}
use tabgrant.Broker.Inversion.{then_do-ok, throw_if-then, pure-then, require-then, audit-then}

-- The request, the destination and the capability that a grant rests on, in the state `s` before it.
pub record Consented (p : Platform) (secret : String) (now : ℕ) (ids : GrantIds)
    (context : ConnectionContext) (q : GrantParams) (s t : BrokerState) (shown : PublicLease)
    : Type 0 where
  pub request : AccessRequest
  pub asked : find (request_has q.request_id) s.access_requests ≡ some request
  pub awaiting : is_pending request.status ≡ true
  pub unexpired : now < request.expires_at
  pub requested : All (λ x. includes_scope request.scopes x ≡ true) q.scopes
  pub own_browser : browser_of context s ≡ some q.browser_instance_id
  pub address : Url
  pub parsed : p.new_url q.url ≡ some address
  pub own_origin : address.origin ≡ q.origin
  pub web : http_url address ≡ true
  pub capability : Capability
  pub signed :
      issue p secret (capability_grant now request q) ids.capability_id ids.nonce ≡ some capability
  pub kept : List Lease
  pub after : BrokerState
  pub added : after.leases ≡ kept ++ new_lease p now request q capability ids ∷ []
  pub answered : public_lease p now (new_lease p now request q capability ids) after ≡ (t, ok shown)

pending_request-ok :
    (now : ℕ) (id : String) (s t : BrokerState) (r : AccessRequest)
    → pending_request now id s ≡ (t, ok r)
    → (t ≡ s)
      × (find (request_has id) s.access_requests ≡ some r)
      × (is_pending r.status ≡ true)
      × (now < r.expires_at)
unfolding pending_request
pending_request-ok now id s t r h = elim (Option-cases (find (request_has id) s.access_requests)) [
  | inl gone ↦ absurd (cc (rw (pending_request, gone) at h))
  | inr (x, there) ↦ elim (Bool-cases (is_pending x.status)) [
    | inr over ↦ absurd (cc (rw (pending_request, there, over) at h))
    | inl waits ↦ elim (Bool-cases (leb x.expires_at now)) [
      | inl late ↦ absurd (cc (rw (pending_request, there, waits, late) at h))
      | inr early ↦
          let h' = rw (pending_request, there, waits, early) at h in
          let is : x ≡ r = cc in
          (
            cc,
            there ∙ ap some is,
            ap (λ y. is_pending (AccessRequest.status y)) (sym is) ∙ waits,
            subst (λ y. now < AccessRequest.expires_at y) is (ground arith),
          )
    ]
  ]
]

pub same_option-some : (o : Option String) (b : String) → not (same_option o b) ≡ false → o ≡ some b
same_option-some none b e = absurd (cc)
same_option-some (some a) b e = ap some ((===_iff a b).0 (ground arith))

url_matches-some :
    (o : Option Url) (origin : String)
    → not (url_matches o origin) ≡ false
    → (u : Url) × (o ≡ some u) × (u.origin ≡ origin) × (http_url u ≡ true)
url_matches-some none origin e = absurd (cc)
url_matches-some (some u) origin e =
    (u, refl, (===_iff u.origin origin).0 (ground arith), ground arith)

not-false_iff : (b : Bool) → (not b ≡ false) ↔ (b ≡ true)
not-false_iff true = ((λ e. refl), (λ e. refl))
not-false_iff false = ((λ e. absurd (cc)), (λ e. absurd (cc)))

Consented-of :
    (p : Platform) (secret : String) (now : ℕ) (ids : GrantIds) (context : ConnectionContext)
    (q : GrantParams) (s s1 u t : BrokerState) (shown : PublicLease) (r : AccessRequest)
    (c : Capability) (kept : List Lease)
    → not (same_option (browser_of context s) q.browser_instance_id) ≡ false
    → (s1 ≡ s)
      × (find (request_has q.request_id) s.access_requests ≡ some r)
      × (is_pending r.status ≡ true)
      × (now < r.expires_at)
    → any (λ x. not (includes_scope r.scopes x)) q.scopes ≡ false
    → not (url_matches (p.new_url q.url) q.origin) ≡ false
    → issue p secret (capability_grant now r q) ids.capability_id ids.nonce ≡ some c
    → u.leases ≡ kept ++ new_lease p now r q c ids ∷ []
    → public_lease p now (new_lease p now r q c ids) u ≡ (t, ok shown)
    → Consented p secret now ids context q s t shown
Consented-of p secret now ids context q s s1 u t shown r c kept b a e m issued added answered =
    let (address, parsed, own, web) = url_matches-some (p.new_url q.url) q.origin m in
    record {
      request = r;
      asked = a.1;
      awaiting = a.2;
      unexpired = a.3;
      requested =
          (any-false_iff (λ x. not (includes_scope r.scopes x))
              (λ x. not-false_iff (includes_scope r.scopes x)) q.scopes).0
            e;
      own_browser = same_option-some (browser_of context s) q.browser_instance_id b;
      address = address;
      parsed = parsed;
      own_origin = own;
      web = web;
      capability = c;
      signed = issued;
      kept = kept;
      after = u;
      added = added;
      answered = answered;
    }

-- A lease is granted only for a request that exists, is pending and has not run out, only with scopes
-- that the request names, only by the connection of the browser instance that the grant names, and
-- only for an HTTP or HTTPS address of the granted origin; its capability is one that was issued for
-- that request and grant; and exactly that lease is put behind the leases that were kept.
pub grant_access-Consented :
    (p : Platform) (secret : String) (now : ℕ) (ids : GrantIds) (audit_ok : Bool)
    (context : ConnectionContext) (q : GrantParams) (s t : BrokerState) (shown : PublicLease)
    → grant_access p secret now ids audit_ok context q s ≡ (t, ok shown)
    → Consented p secret now ids context q s t shown
unfolding grant_access add_lease
grant_access-Consented p secret now ids audit_ok context q s t shown h =
    let (_, h1) = throw_if-then _ _ _ h in
    let (b, h2) = throw_if-then _ _ _ (pure-then _ _ h1) in
    let (r, s1, asked, h3) = then_do-ok h2 in
    let (e, h4) = throw_if-then _ _ _ h3 in
    let (m, h5) = throw_if-then _ _ _ h4 in
    let (_, s2, _, h6) = then_do-ok h5 in
    let (c, issued, h7) = require-then _ _ _ h6 in
    Consented-of p secret now ids context q s s1 _ t shown r c s2.leases b
      (pending_request-ok now q.request_id s s1 r asked) e m issued refl
      (audit-then _ _ _ (pure-then _ _ h7))
