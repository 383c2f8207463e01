-- ===== src/Daemon/Backing.antt =====
-- What stands behind the role of a browser in every history of a `BrokerDaemon` of
-- apps/broker/src/daemon.ts, and the history of the broker's state within it.
use tabgrant.Common.{
  ℕ, ◌≡◌, ◌⊎◌, sym, subst, String, List, ◌∷◌, Option, none, some, inl, inr, by_cases, ◌===◌, ◌==◌,
  if◌then◌else◌,
}
use tabgrant.Protocol.Platform.{Platform}
use tabgrant.Broker.Records.{browser}
use tabgrant.Broker.Run.{
  Reachable as BrokerReachable, started as broker_started, steps as broker_steps,
}
use tabgrant.Auth.Browser.{EcdsaVerify}
use tabgrant.Daemon.Link.{
  Witness, Daemon, Session, Link, After, refuse, is_agent, not_agent, throw_other,
}
use tabgrant.Daemon.Browser.{
  Params, Outside, start_of, pair_of, complete_of, on_session_request, on_request, hello_params,
  start_params, pairing_params, completion_params, other_params,
}
use tabgrant.Daemon.System.{
  System, put, Step, Reachable, requests, finds, prompts, persists, leaves, works, fires, started,
  steps,
}
use tabgrant.Daemon.Witnesses.{Vouched, OfRole, OfSession, IsBacked, IsBacked-later}
use tabgrant.Daemon.Moves.{
  Moved, still, session_hello-Moved, auth_start-Moved, looked_up-Moved, auth_pair-Moved,
  prompted-Moved,
}
use tabgrant.Daemon.Completion.{auth_complete-Moved, persisted-Moved, left-Moved}

module _ (p : Platform) (ecdsa : EcdsaVerify) (authority : String) where
  unfit :
      (s : Session) (d : Daemon) (l : Link)
      → IsBacked p ecdsa d.witnessed l
      → Moved p ecdsa authority d l (if is_agent s then throw_other d l else not_agent d l)
  unfit s d l h =
      by_cases (Moved p ecdsa authority d l) (is_agent s) (λ _. still p ecdsa authority d l l _ h)
        (λ _. still p ecdsa authority d l l _ h)

  start_of-Moved :
      (secret : String) (o : Outside) (s : Session) (params : Params) (d : Daemon) (l : Link)
      → IsBacked p ecdsa d.witnessed l
      → Moved p ecdsa authority d l (start_of p ecdsa secret o s params d l)
  start_of-Moved secret o s (start_params a) d l h =
      auth_start-Moved p ecdsa authority o.now s a d l h
  start_of-Moved secret o s (hello_params a) d l h = unfit s d l h
  start_of-Moved secret o s (pairing_params a) d l h = unfit s d l h
  start_of-Moved secret o s (completion_params a) d l h = unfit s d l h
  start_of-Moved secret o s other_params d l h = unfit s d l h

  pair_of-Moved :
      (secret : String) (o : Outside) (s : Session) (params : Params) (d : Daemon) (l : Link)
      → IsBacked p ecdsa d.witnessed l
      → Moved p ecdsa authority d l (pair_of p ecdsa secret o s params d l)
  pair_of-Moved secret o s (pairing_params a) d l h =
      auth_pair-Moved p ecdsa authority o.now s a d l h
  pair_of-Moved secret o s (hello_params a) d l h = unfit s d l h
  pair_of-Moved secret o s (start_params a) d l h = unfit s d l h
  pair_of-Moved secret o s (completion_params a) d l h = unfit s d l h
  pair_of-Moved secret o s other_params d l h = unfit s d l h

  complete_of-Moved :
      (secret : String) (o : Outside) (s : Session) (params : Params) (d : Daemon) (l : Link)
      → IsBacked p ecdsa d.witnessed l
      → Moved p ecdsa authority d l (complete_of p ecdsa secret o s params d l)
  complete_of-Moved secret o s (completion_params a) d l h =
      auth_complete-Moved p ecdsa authority o.now o.audit_ok s a d l h
  complete_of-Moved secret o s (hello_params a) d l h = unfit s d l h
  complete_of-Moved secret o s (start_params a) d l h = unfit s d l h
  complete_of-Moved secret o s (pairing_params a) d l h = unfit s d l h
  complete_of-Moved secret o s other_params d l h = unfit s d l h

  on_session_request-Moved :
      (secret : String) (o : Outside) (method : String) (params : Params) (s : Session) (d : Daemon)
      (l : Link)
      → IsBacked p ecdsa d.witnessed l
      → Moved p ecdsa authority d l (on_session_request p ecdsa secret o method params s d l)
  unfolding on_session_request
  on_session_request-Moved secret o method params s d l h =
      by_cases (Moved p ecdsa authority d l) (method === "broker.kill")
        (λ _. still p ecdsa authority d l l _ h)
        (λ _.
          by_cases (Moved p ecdsa authority d l) (method === "browser.auth.start")
            (λ _. start_of-Moved secret o s params d l h)
            (λ _.
              by_cases (Moved p ecdsa authority d l) (method === "browser.auth.pair")
                (λ _. pair_of-Moved secret o s params d l h)
                (λ _.
                  by_cases (Moved p ecdsa authority d l) (method === "browser.auth.complete")
                    (λ _. complete_of-Moved secret o s params d l h)
                    (λ _. still p ecdsa authority d l l _ h))))

  with_session-Moved :
      (secret : String) (o : Outside) (method : String) (params : Params) (session : Option Session)
      (d : Daemon) (l : Link)
      → IsBacked p ecdsa d.witnessed l
      → Moved p ecdsa authority d l (elim session [
        | none ↦ refuse "AUTHENTICATION_REQUIRED" "Authenticate before calling broker methods." d l
        | some s ↦ on_session_request p ecdsa secret o method params s d l
      ])
  with_session-Moved secret o method params none d l h = still p ecdsa authority d l l _ h
  with_session-Moved secret o method params (some s) d l h =
      on_session_request-Moved secret o method params s d l h

  on_request-Moved :
      (secret : String) (o : Outside) (method : String) (params : Params) (d : Daemon) (l : Link)
      → IsBacked p ecdsa d.witnessed l
      → Moved p ecdsa authority d l (on_request p ecdsa secret o method params d l)
  unfolding on_request
  on_request-Moved secret o method params d l h =
      by_cases (Moved p ecdsa authority d l) (method === "session.hello")
        (λ _. session_hello-Moved p ecdsa authority secret o.context_id o.uuid o.now _ d l h)
        (λ _. with_session-Moved secret o method params l.session d l h)

module _ (p : Platform) (ecdsa : EcdsaVerify) (secret authority : String) where
  record IsWitnessed (y : System) : Type 0 where
    links : (n : ℕ) → IsBacked p ecdsa y.daemon.witnessed (y.links n)
    broker : BrokerReachable p authority y.daemon.broker

  log-later :
      (log later : List Witness) (l : Link)
      → (later ≡ log) ⊎ ((w : Witness) × (later ≡ w ∷ log))
      → IsBacked p ecdsa log l
      → IsBacked p ecdsa later l
  log-later log later l (inl same) h = subst (λ x. IsBacked p ecdsa x l) (sym same) h
  log-later log later l (inr (w, grown)) h =
      subst (λ x. IsBacked p ecdsa x l) (sym grown) (IsBacked-later p ecdsa w log l h)

  put-IsWitnessed :
      (n : ℕ) (a : After) (y : System)
      → IsWitnessed y
      → Moved p ecdsa authority y.daemon (y.links n) a
      → IsWitnessed (put n a y)
  put-IsWitnessed n a y h m = record {
    links = λ k.
        by_cases (IsBacked p ecdsa a.daemon.witnessed) (k == n) (λ mine. m.backed)
          (λ other. log-later y.daemon.witnessed a.daemon.witnessed (y.links k) m.log (h.links k));
    broker = elim m.broker [
      | inl same ↦ subst (BrokerReachable p authority) (sym same) h.broker
      | inr step ↦ broker_steps y.daemon.broker a.daemon.broker h.broker step
    ];
  }

  Step-IsWitnessed :
      (y z : System) → Step p ecdsa secret authority y z → IsWitnessed y → IsWitnessed z
  Step-IsWitnessed _ _ (requests n o method params y) h =
      put-IsWitnessed n _ y h
        (on_request-Moved p ecdsa authority secret o method params y.daemon (y.links n) (h.links n))
  Step-IsWitnessed _ _ (finds n id random now found start y at) h =
      put-IsWitnessed n _ y h (
        looked_up-Moved p ecdsa authority id random now found start y.daemon (y.links n)
          (h.links n))
  Step-IsWitnessed _ _ (prompts n id random now given start y at) h =
      put-IsWitnessed n _ y h (
        prompted-Moved p ecdsa authority id random now given start y.daemon (y.links n) (h.links n))
  Step-IsWitnessed _ _ (persists n now audit_ok written c s y at mine) h = put-IsWitnessed n _ y h (
      persisted-Moved p ecdsa authority now audit_ok written c s y.daemon (y.links n) at
        (h.links n))
  Step-IsWitnessed _ _ (leaves n context_id uuid resolved c s y at mine) h =
      put-IsWitnessed n _ y h (
        left-Moved p ecdsa authority context_id uuid resolved c s y.daemon (y.links n) at
          (h.links n))
  Step-IsWitnessed _ _ (works b y step) h = record {
    links = h.links;
    broker = broker_steps y.daemon.broker b h.broker step;
  }
  Step-IsWitnessed _ _ (fires nonce y) h = record { links = h.links; broker = h.broker }

  Reachable-IsWitnessed : (y : System) → Reachable p ecdsa secret authority y → IsWitnessed y
  Reachable-IsWitnessed _ started = record {
    links = λ n. record { challenge = tt; stage = tt; session = tt };
    broker = broker_started;
  }
  Reachable-IsWitnessed _ (steps y z past step) =
      Step-IsWitnessed y z step (Reachable-IsWitnessed y past)

  -- In every history of the daemon, the broker's state has a history of its own steps only.
  Reachable-broker :
      (y : System)
      → Reachable p ecdsa secret authority y
      → BrokerReachable p authority y.daemon.broker
  Reachable-broker y past = (Reachable-IsWitnessed y past).broker

  OfSession-browser :
      (log : List Witness) (o : Option Session) (s : Session)
      → o ≡ some s
      → s.auth.role ≡ browser
      → OfSession p ecdsa log o
      → Vouched p ecdsa log s.auth.instance_id
  OfSession-browser log o s is role h =
      subst (λ r. OfRole p ecdsa log r s.auth.instance_id) role (subst (OfSession p ecdsa log) is h)

  -- In every history of the daemon, a connection with the role of a browser speaks for the browser instance
  -- of a challenge whose signature with its key was right in the challenge's time, and the key of that
  -- challenge had been found in the pairing file or approved at a prompt.
  pub browser-Vouched :
      (y : System) (n : ℕ) (s : Session)
      → Reachable p ecdsa secret authority y
      → (y.links n).session ≡ some s
      → s.auth.role ≡ browser
      → Vouched p ecdsa y.daemon.witnessed s.auth.instance_id
  browser-Vouched y n s past mine role =
      OfSession-browser y.daemon.witnessed (y.links n).session s mine role
        ((Reachable-IsWitnessed y past).links n).session
