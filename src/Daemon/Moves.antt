-- ===== src/Daemon/Moves.antt =====
-- `session.hello`, `browser.auth.start` and `browser.auth.pair` of apps/broker/src/daemon.ts keep what is
-- witnessed, and move the broker's state by its own steps.
use tabgrant.Common.{
  ℕ, ◌≡◌, ◌⊎◌, refl, sym, ap, subst, String, Bool, true, false, not, List, ◌∷◌, Option, none, some,
  inl, inr, by_cases, is_some,
}
use tabgrant.Protocol.Platform.{Platform}
use tabgrant.Broker.Records.{agent}
use tabgrant.Broker.Run.{Step as BrokerStep, connects}
use tabgrant.Auth.Hello.{AuthHello, Verified, accepted, rejected, verify_auth_hello}
use tabgrant.Auth.Browser.{
  EcdsaVerify, BrowserAuthStart, start_schema, BrowserPairingRequest, pairing_request_schema,
  create_browser_auth_challenge,
}
use tabgrant.Auth.HelloLaws.{verify_auth_hello-accepted_iff}
use tabgrant.Daemon.Attempts.{reserve}
use tabgrant.Daemon.Link.{
  Witness, Daemon, Session, Link, Outcome, After, greet, session_hello, is_expired, clear_expired,
  is_occupied, is_agent, release, paired, approved,
}
use tabgrant.Daemon.Browser.{
  give_challenge, auth_start, looked_up, in_cooldown, open_prompt, auth_pair, prompted,
}
use tabgrant.Daemon.Witnesses.{Known, OfRole, IsBacked, IsBacked-later}

-- A stretch of one connection: what is known only grows, what it says is backed, and the broker's state
-- stays or takes a step of its own.
module _ (p : Platform) (ecdsa : EcdsaVerify) (authority : String) where
  pub record Moved (d : Daemon) (l : Link) (a : After) : Type 0 where
    pub log :
        (a.daemon.witnessed ≡ d.witnessed)
        ⊎ ((w : Witness) × (a.daemon.witnessed ≡ w ∷ d.witnessed))
    pub backed : IsBacked p ecdsa a.daemon.witnessed a.link
    pub broker : (a.daemon.broker ≡ d.broker) ⊎ BrokerStep p authority d.broker a.daemon.broker

  -- Nothing but the link changes.
  pub still :
      (d : Daemon) (l l' : Link) (o : Outcome)
      → IsBacked p ecdsa d.witnessed l'
      → Moved d l (record { daemon = d; link = l'; outcome = o })
  still d l l' o h = record { log = inl refl; backed = h; broker = inl refl }

  pub cleared-IsBacked :
      (log : List Witness) (now : ℕ) (l : Link)
      → IsBacked p ecdsa log l
      → IsBacked p ecdsa log (clear_expired now l)
  cleared-IsBacked log now l h =
      by_cases (IsBacked p ecdsa log) (is_expired now l.challenge)
        (λ over. record { challenge = tt; stage = h.stage; session = h.session }) (λ fresh. h)

  pub release-IsBacked :
      (log : List Witness) (l : Link) → IsBacked p ecdsa log l → IsBacked p ecdsa log (release l)
  release-IsBacked log l h = record { challenge = h.challenge; stage = tt; session = h.session }

  pub greet-Moved :
      (nonce uuid : String) (context_id now : ℕ) (used : List String) (secret : String)
      (h : AuthHello) (d : Daemon) (l : Link) (v : Verified)
      → verify_auth_hello p secret now used h ≡ v
      → IsBacked p ecdsa d.witnessed l
      → Moved d l (greet nonce context_id uuid now h d l v)
  greet-Moved nonce uuid context_id now used secret h d l (rejected e) is good = still d l l _ good
  greet-Moved nonce uuid context_id now used secret h d l (accepted auth later) is good =
      let (_, role, _) = (verify_auth_hello-accepted_iff p secret now used h auth later).0 is in
      let agent' : agent ≡ auth.role = ap AuthHello.role role in
      record {
        log = inl refl;
        backed = record {
          challenge = good.challenge;
          stage = good.stage;
          session = subst (λ r. OfRole p ecdsa d.witnessed r auth.instance_id) agent' tt;
        };
        broker = inr (connects _ uuid d.broker);
      }

  pub session_hello-Moved :
      (secret : String) (context_id : ℕ) (uuid : String) (now : ℕ) (candidate : Option AuthHello)
      (d : Daemon) (l : Link)
      → IsBacked p ecdsa d.witnessed l
      → Moved d l (session_hello p secret context_id uuid now candidate d l)
  unfolding session_hello
  session_hello-Moved secret context_id uuid now none d l h =
      by_cases (Moved d l) (is_some l.session) (λ again. still d l l _ h) (λ first. still d l l _ h)
  session_hello-Moved secret context_id uuid now (some hello) d l h =
      by_cases (Moved d l) (is_some l.session) (λ again. still d l l _ h)
        (λ first. greet-Moved hello.nonce uuid context_id now _ secret hello d l _ refl h)

  pub auth_start-Moved :
      (now : ℕ) (s : Session) (start : BrowserAuthStart) (d : Daemon) (l : Link)
      → IsBacked p ecdsa d.witnessed l
      → Moved d l (auth_start p now s start d l)
  unfolding auth_start
  auth_start-Moved now s start d l h =
      let cleared = cleared-IsBacked d.witnessed now l h in
      by_cases (Moved d l) (not (is_agent s)) (λ _. still d l l _ h)
        (λ _.
          by_cases (Moved d l) (not (start_schema p start)) (λ _. still d l l _ h)
            (λ _.
              by_cases (Moved d l) (is_occupied (clear_expired now l))
                (λ _. still d l (clear_expired now l) _ cleared)
                (λ _. still d l _ _ (record {
                  challenge = cleared.challenge;
                  stage = tt;
                  session = cleared.session;
                }))))

  pub give_challenge-Moved :
      (pairs : Bool) (id random : String) (now : ℕ) (start : BrowserAuthStart) (w : Witness)
      (d d' : Daemon) (l : Link)
      → d'.witnessed ≡ w ∷ d.witnessed
      → d'.broker ≡ d.broker
      → Known (w ∷ d.witnessed) start
      → IsBacked p ecdsa d.witnessed l
      → Moved d l (give_challenge pairs d' l (create_browser_auth_challenge p id random now start))
  unfolding create_browser_auth_challenge
  give_challenge-Moved pairs id random now start w d d' l grown same known h =
      let later : IsBacked p ecdsa d'.witnessed l =
        subst (λ log. IsBacked p ecdsa log l) (sym grown)
          (IsBacked-later p ecdsa w d.witnessed l h) in
      let start_known : Known d'.witnessed start =
        subst (λ log. Known log start) (sym grown) known in
      by_cases (λ o. Moved d l (give_challenge pairs d' l o)) (start_schema p start)
        (λ good. record {
          log = inr (w, grown);
          backed = record { challenge = start_known; stage = tt; session = later.session };
          broker = inl same;
        })
        (λ bad. record {
          log = inr (w, grown);
          backed = release-IsBacked d'.witnessed l later;
          broker = inl same;
        })

  pub looked_up-Moved :
      (id random : String) (now : ℕ) (found : Option Bool) (start : BrowserAuthStart) (d : Daemon)
      (l : Link)
      → IsBacked p ecdsa d.witnessed l
      → Moved d l (looked_up p id random now found start d l)
  unfolding looked_up
  looked_up-Moved id random now none start d l h =
      still d l (release l) _ (release-IsBacked d.witnessed l h)
  looked_up-Moved id random now (some false) start d l h =
      still d l (release l) _ (release-IsBacked d.witnessed l h)
  looked_up-Moved id random now (some true) start d l h =
      give_challenge-Moved false id random now start (paired start) d _ l refl refl (inl (inl refl))
        h

  -- The daemon's witnesses and its broker's state are the same, and the link is released.
  pub over :
      (d d' : Daemon) (l l' : Link) (o : Outcome)
      → d'.witnessed ≡ d.witnessed
      → d'.broker ≡ d.broker
      → IsBacked p ecdsa d.witnessed l'
      → Moved d l (record { daemon = d'; link = l'; outcome = o })
  over d d' l l' o log broker h = record {
    log = inl log;
    backed = subst (λ x. IsBacked p ecdsa x l') (sym log) h;
    broker = inl broker;
  }

  pub tried-IsBacked :
      (log : List Witness) (l : Link) (attempts : List ℕ)
      → IsBacked p ecdsa log l
      → IsBacked p ecdsa log (release (record l { attempts = attempts }))
  tried-IsBacked log l attempts h = record {
    challenge = h.challenge;
    stage = tt;
    session = h.session;
  }

  pub open_prompt-Moved :
      (now : ℕ) (start : BrowserAuthStart) (d : Daemon) (l : Link)
      → IsBacked p ecdsa d.witnessed l
      → Moved d l (open_prompt now start d l)
  unfolding open_prompt
  open_prompt-Moved now start d l h =
      let mine = reserve 300000 3 now l.attempts in
      let room = reserve 600000 3 now d.global_attempts in
      let tried = tried-IsBacked d.witnessed l mine.0 h in
      by_cases (Moved d l) (not mine.1) (λ _. still d l _ _ tried)
        (λ _.
          by_cases (Moved d l) d.prompt_active (λ _. still d l _ _ tried)
            (λ _.
              by_cases (Moved d l) (in_cooldown now d.last_prompt_at) (λ _. still d l _ _ tried)
                (λ _.
                  by_cases (Moved d l) (not room.1) (λ _. over d _ l _ _ refl refl tried)
                    (λ _.
                      over d _ l _ _ refl refl
                        (record { challenge = h.challenge; stage = tt; session = h.session })))))

  -- A stretch that goes on from a link whose challenge is cleared.
  pub after_clear : (d : Daemon) (l l' : Link) (a : After) → Moved d l' a → Moved d l a
  after_clear d l l' a m = record { log = m.log; backed = m.backed; broker = m.broker }

  pub auth_pair-Moved :
      (now : ℕ) (s : Session) (request : BrowserPairingRequest) (d : Daemon) (l : Link)
      → IsBacked p ecdsa d.witnessed l
      → Moved d l (auth_pair p now s request d l)
  unfolding auth_pair
  auth_pair-Moved now s request d l h =
      let cleared = cleared-IsBacked d.witnessed now l h in
      by_cases (Moved d l) (not (is_agent s)) (λ _. still d l l _ h)
        (λ _.
          by_cases (Moved d l) (not (pairing_request_schema p request)) (λ _. still d l l _ h)
            (λ _.
              by_cases (Moved d l) (is_occupied (clear_expired now l))
                (λ _. still d l (clear_expired now l) _ cleared)
                (λ _.
                  after_clear d l _ _
                    (open_prompt-Moved now request.start d (clear_expired now l) cleared))))

  pub prompted-Moved :
      (id random : String) (now : ℕ) (given : Bool) (start : BrowserAuthStart) (d : Daemon)
      (l : Link)
      → IsBacked p ecdsa d.witnessed l
      → Moved d l (prompted p id random now given start d l)
  unfolding prompted
  prompted-Moved id random now true start d l h =
      give_challenge-Moved true id random now start (approved start) d _ l refl refl
        (inr (inl refl)) h
  prompted-Moved id random now false start d l h =
      over d _ l (release l) _ refl refl (release-IsBacked d.witnessed l h)
