-- ===== src/Daemon/Completion.antt =====
-- `browser.auth.complete` of apps/broker/src/daemon.ts keeps what is witnessed.
use tabgrant.Common.{
  ℕ, ◌≡◌, ◌⊎◌, refl, subst, String, Bool, not, ◌∷◌, Option, none, some, inl, inr, arith, by_cases,
  ◌===◌, if◌then◌else◌,
}
use tabgrant.Protocol.Platform.{Platform}
use tabgrant.Broker.Lifecycle.{disconnected}
use tabgrant.Broker.Run.{Step as BrokerStep, connects, disconnects}
use tabgrant.Auth.Browser.{
  EcdsaVerify, BrowserAuthComplete, complete_schema, BrowserAuthChallenge,
  verify_browser_auth_signature,
}
use tabgrant.Daemon.Link.{
  Witness, Daemon, Session, Link, context_of, clear_expired, is_agent, release, proved, persisting,
  leaving,
}
use tabgrant.Daemon.Browser.{proof_rejected, leave, take_challenge, auth_complete, persisted, left}
use tabgrant.Daemon.Witnesses.{
  Known, Proven, OfChallenge, OfStage, IsBacked, Known-later, IsBacked-later,
}
use tabgrant.Daemon.Moves.{Moved, still, cleared-IsBacked, release-IsBacked}

module _ (p : Platform) (ecdsa : EcdsaVerify) (authority : String) where
  pub leave-Moved :
      (now : ℕ) (audit_ok : Bool) (c : BrowserAuthChallenge) (s : Session) (d d' : Daemon)
      (l l' : Link)
      → (d'.witnessed ≡ d.witnessed) ⊎ ((w : Witness) × (d'.witnessed ≡ w ∷ d.witnessed))
      → d'.broker ≡ d.broker
      → Proven p ecdsa d'.witnessed c
      → IsBacked p ecdsa d'.witnessed l'
      → Moved p ecdsa authority d l (leave now audit_ok c s d' l')
  unfolding leave
  leave-Moved now audit_ok c s d d' l l' log same proven h = record {
    log = log;
    backed = record { challenge = h.challenge; stage = proven; session = h.session };
    broker = inr (
        subst (λ b. BrokerStep p authority b (disconnected now audit_ok (context_of s) d'.broker).0)
          same (disconnects now audit_ok (context_of s) d'.broker));
  }

  pub take_challenge-Moved :
      (now : ℕ) (audit_ok : Bool) (signature : String) (c : BrowserAuthChallenge) (s : Session)
      (d : Daemon) (l₀ l : Link)
      → IsBacked p ecdsa d.witnessed l
      → Known d.witnessed c.start
      → Moved p ecdsa authority d l₀ (take_challenge p ecdsa now audit_ok signature c s d l)
  unfolding take_challenge
  take_challenge-Moved now audit_ok signature c s d l₀ l h known =
      let w : Witness = proved c signature now in
      let later = IsBacked-later p ecdsa w d.witnessed l h in
      by_cases (Moved p ecdsa authority d l₀)
        (not (verify_browser_auth_signature p ecdsa c signature now))
        (λ _.
          still p ecdsa authority d l₀ _ _
            (record { challenge = tt; stage = tt; session = h.session }))
        (λ right.
          let proven : Proven p ecdsa (w ∷ d.witnessed) c = (
            signature,
            now,
            inl refl,
            ground arith,
            Known-later p ecdsa w d.witnessed c.start known,
          ) in
          by_cases (Moved p ecdsa authority d l₀) l.pairs_key
            (λ pairs. record {
              log = inr (w, refl);
              backed = record { challenge = tt; stage = proven; session = later.session };
              broker = inl refl;
            })
            (λ paired.
              leave-Moved now audit_ok c s d _ l₀ _ (inr (w, refl)) refl proven
                (record { challenge = tt; stage = later.stage; session = later.session })))

  pub taken-Moved :
      (now : ℕ) (audit_ok : Bool) (s : Session) (completion : BrowserAuthComplete) (d : Daemon)
      (l₀ l : Link) (o : Option BrowserAuthChallenge)
      → OfChallenge p ecdsa d.witnessed o
      → IsBacked p ecdsa d.witnessed l
      → Moved p ecdsa authority d l₀ (elim o [
        | none ↦ proof_rejected d l
        | some c ↦
            if not (completion.challenge_id === c.challenge_id)
            then proof_rejected d l
            else take_challenge p ecdsa now audit_ok completion.signature c s d l
      ])
  taken-Moved now audit_ok s completion d l₀ l none known h = still p ecdsa authority d l₀ l _ h
  taken-Moved now audit_ok s completion d l₀ l (some c) known h =
      by_cases (Moved p ecdsa authority d l₀) (not (completion.challenge_id === c.challenge_id))
        (λ _. still p ecdsa authority d l₀ l _ h)
        (λ _. take_challenge-Moved now audit_ok completion.signature c s d l₀ l h known)

  pub auth_complete-Moved :
      (now : ℕ) (audit_ok : Bool) (s : Session) (completion : BrowserAuthComplete) (d : Daemon)
      (l : Link)
      → IsBacked p ecdsa d.witnessed l
      → Moved p ecdsa authority d l (auth_complete p ecdsa now audit_ok s completion d l)
  unfolding auth_complete
  auth_complete-Moved now audit_ok s completion d l h =
      let opened = clear_expired now l in
      let cleared = cleared-IsBacked p ecdsa authority d.witnessed now l h in
      by_cases (Moved p ecdsa authority d l) (not (is_agent s))
        (λ _. still p ecdsa authority d l l _ h)
        (λ _.
          by_cases (Moved p ecdsa authority d l) (not (complete_schema p completion))
            (λ _. still p ecdsa authority d l l _ h)
            (λ _.
              by_cases (Moved p ecdsa authority d l) opened.transition_active
                (λ _. still p ecdsa authority d l opened _ cleared)
                (λ _.
                  taken-Moved now audit_ok s completion d l opened opened.challenge
                    cleared.challenge cleared)))

  pub persisted-Moved :
      (now : ℕ) (audit_ok written : Bool) (c : BrowserAuthChallenge) (s : Session) (d : Daemon)
      (l : Link)
      → l.stage ≡ persisting c
      → IsBacked p ecdsa d.witnessed l
      → Moved p ecdsa authority d l (persisted now audit_ok written c s d l)
  unfolding persisted
  persisted-Moved now audit_ok written c s d l at h =
      let proven : Proven p ecdsa d.witnessed c = subst (OfStage p ecdsa d.witnessed) at h.stage in
      by_cases (Moved p ecdsa authority d l) written
        (λ _. leave-Moved now audit_ok c s d d l l (inl refl) refl proven h)
        (λ _.
          still p ecdsa authority d l (release l) _
            (release-IsBacked p ecdsa authority d.witnessed l h))

  pub left-Moved :
      (context_id : ℕ) (uuid : String) (resolved : Bool) (c : BrowserAuthChallenge) (s : Session)
      (d : Daemon) (l : Link)
      → l.stage ≡ leaving c resolved
      → IsBacked p ecdsa d.witnessed l
      → Moved p ecdsa authority d l (left context_id uuid resolved c s d l)
  unfolding left
  left-Moved context_id uuid resolved c s d l at h =
      let proven : Proven p ecdsa d.witnessed c = subst (OfStage p ecdsa d.witnessed) at h.stage in
      by_cases (Moved p ecdsa authority d l) resolved
        (λ _. record {
          log = inl refl;
          backed = record { challenge = h.challenge; stage = tt; session = (c, (proven, refl)) };
          broker = inr (connects _ uuid d.broker);
        })
        (λ _.
          still p ecdsa authority d l (release l) _
            (release-IsBacked p ecdsa authority d.witnessed l h))
