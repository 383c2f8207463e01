-- ===== src/Daemon/Requests.antt =====
-- Every request of a connection of apps/broker/src/daemon.ts leaves prompts and attempts in order.
use tabgrant.Common.{refl, String, Option, none, some, by_cases, ◌===◌, if◌then◌else◌}
use tabgrant.Protocol.Platform.{Platform}
use tabgrant.Auth.Browser.{EcdsaVerify}
use tabgrant.Daemon.Link.{Daemon, Session, Link, refuse, is_agent, not_agent, throw_other}
use tabgrant.Daemon.Browser.{
  Params, Outside, start_of, pair_of, complete_of, on_session_request, on_request, hello_params,
  start_params, pairing_params, completion_params, other_params,
}
use tabgrant.Daemon.Order.{IsOrderly, Turned, calm}
use tabgrant.Daemon.Turns.{
  session_hello-Turned, auth_start-Turned, auth_pair-Turned, auth_complete-Turned,
}

module _ (p : Platform) (ecdsa : EcdsaVerify) (secret : String) where
  unfit-Turned :
      (s : Session) (d : Daemon) (l : Link)
      → IsOrderly d l
      → Turned d l (if is_agent s then throw_other d l else not_agent d l)
  unfit-Turned s d l h =
      by_cases (Turned d l) (is_agent s) (λ _. calm d d l l _ h refl refl)
        (λ _. calm d d l l _ h refl refl)

  start_of-Turned :
      (o : Outside) (s : Session) (params : Params) (d : Daemon) (l : Link)
      → IsOrderly d l
      → Turned d l (start_of p ecdsa secret o s params d l)
  start_of-Turned o s (start_params a) d l h = auth_start-Turned p ecdsa o.now s a d l h
  start_of-Turned o s (hello_params a) d l h = unfit-Turned s d l h
  start_of-Turned o s (pairing_params a) d l h = unfit-Turned s d l h
  start_of-Turned o s (completion_params a) d l h = unfit-Turned s d l h
  start_of-Turned o s other_params d l h = unfit-Turned s d l h

  pair_of-Turned :
      (o : Outside) (s : Session) (params : Params) (d : Daemon) (l : Link)
      → IsOrderly d l
      → Turned d l (pair_of p ecdsa secret o s params d l)
  pair_of-Turned o s (pairing_params a) d l h = auth_pair-Turned p ecdsa o.now s a d l h
  pair_of-Turned o s (hello_params a) d l h = unfit-Turned s d l h
  pair_of-Turned o s (start_params a) d l h = unfit-Turned s d l h
  pair_of-Turned o s (completion_params a) d l h = unfit-Turned s d l h
  pair_of-Turned o s other_params d l h = unfit-Turned s d l h

  complete_of-Turned :
      (o : Outside) (s : Session) (params : Params) (d : Daemon) (l : Link)
      → IsOrderly d l
      → Turned d l (complete_of p ecdsa secret o s params d l)
  complete_of-Turned o s (completion_params a) d l h =
      auth_complete-Turned p ecdsa o.now o.audit_ok s a d l h
  complete_of-Turned o s (hello_params a) d l h = unfit-Turned s d l h
  complete_of-Turned o s (start_params a) d l h = unfit-Turned s d l h
  complete_of-Turned o s (pairing_params a) d l h = unfit-Turned s d l h
  complete_of-Turned o s other_params d l h = unfit-Turned s d l h

  on_session_request-Turned :
      (o : Outside) (method : String) (params : Params) (s : Session) (d : Daemon) (l : Link)
      → IsOrderly d l
      → Turned d l (on_session_request p ecdsa secret o method params s d l)
  unfolding on_session_request
  on_session_request-Turned o method params s d l h =
      by_cases (Turned d l) (method === "broker.kill") (λ _. calm d d l l _ h refl refl)
        (λ _.
          by_cases (Turned d l) (method === "browser.auth.start")
            (λ _. start_of-Turned o s params d l h)
            (λ _.
              by_cases (Turned d l) (method === "browser.auth.pair")
                (λ _. pair_of-Turned o s params d l h)
                (λ _.
                  by_cases (Turned d l) (method === "browser.auth.complete")
                    (λ _. complete_of-Turned o s params d l h) (λ _. calm d d l l _ h refl refl))))

  with_session-Turned :
      (o : Outside) (method : String) (params : Params) (session : Option Session) (d : Daemon)
      (l : Link)
      → IsOrderly d l
      → Turned d l (elim session [
        | none ↦ refuse "AUTHENTICATION_REQUIRED" "Authenticate before calling broker methods." d l
        | some s ↦ on_session_request p ecdsa secret o method params s d l
      ])
  with_session-Turned o method params none d l h = calm d d l l _ h refl refl
  with_session-Turned o method params (some s) d l h =
      on_session_request-Turned o method params s d l h

  pub on_request-Turned :
      (o : Outside) (method : String) (params : Params) (d : Daemon) (l : Link)
      → IsOrderly d l
      → Turned d l (on_request p ecdsa secret o method params d l)
  unfolding on_request
  on_request-Turned o method params d l h =
      by_cases (Turned d l) (method === "session.hello")
        (λ _. session_hello-Turned p ecdsa secret o.context_id o.uuid o.now _ d l h)
        (λ _. with_session-Turned o method params l.session d l h)
