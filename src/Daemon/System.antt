-- ===== src/Daemon/System.antt =====
-- The history of a `BrokerDaemon` of apps/broker/src/daemon.ts with any number of connections. Between two
-- synchronous stretches of code any other may run: requests, the rest of a handler whose promise has
-- settled, the work of the broker's state (commands, browser answers and ends of connections, where `close`
-- calls `disconnected`), and the timers of nonces.
use tabgrant.Common.{ℕ, ◌≡◌, String, Bool, Option, some, discard, ◌===◌, ◌==◌, if◌then◌else◌}
use tabgrant.Protocol.Platform.{Platform}
use tabgrant.Broker.Records.{BrokerState}
use tabgrant.Broker.Run.{Step as BrokerStep}
use tabgrant.Auth.Browser.{EcdsaVerify, BrowserAuthStart, BrowserAuthChallenge}
use tabgrant.Daemon.Link.{
  Daemon, new_daemon, Session, looking_up, prompting, persisting, leaving, Link, new_link, After,
}
use tabgrant.Daemon.Browser.{looked_up, prompted, persisted, left, Params, Outside, on_request}

pub record System : Type 0 where
  pub daemon : Daemon
  pub links : ℕ → Link

abbrev pub new_system : System
new_system = record { daemon = new_daemon; links = λ n. new_link }

-- What a stretch of connection `n` leaves.
abbrev pub put : ℕ → After → System → System
put n a y = record { daemon = a.daemon; links = λ m. if m == n then a.link else y.links m }

module _ (p : Platform) (ecdsa : EcdsaVerify) (secret authority : String) where
  pub data Step : System → System → Type 0 where
    requests :
        (n : ℕ) (o : Outside) (method : String) (params : Params) (y : System)
        → Step y (put n (on_request p ecdsa secret o method params y.daemon (y.links n)) y)
    finds :
        (n : ℕ) (id random : String) (now : ℕ) (found : Option Bool) (start : BrowserAuthStart)
        (y : System)
        → (y.links n).stage ≡ looking_up start
        → Step y (put n (looked_up p id random now found start y.daemon (y.links n)) y)
    prompts :
        (n : ℕ) (id random : String) (now : ℕ) (yes : Bool) (start : BrowserAuthStart) (y : System)
        → (y.links n).stage ≡ prompting start
        → Step y (put n (prompted p id random now yes start y.daemon (y.links n)) y)
    persists :
        (n now : ℕ) (audit_ok written : Bool) (c : BrowserAuthChallenge) (s : Session) (y : System)
        → (y.links n).stage ≡ persisting c
        → (y.links n).session ≡ some s
        → Step y (put n (persisted now audit_ok written c s y.daemon (y.links n)) y)
    leaves :
        (n context_id : ℕ) (uuid : String) (resolved : Bool) (c : BrowserAuthChallenge)
        (s : Session) (y : System)
        → (y.links n).stage ≡ leaving c resolved
        → (y.links n).session ≡ some s
        → Step y (put n (left context_id uuid resolved c s y.daemon (y.links n)) y)
    works :
        (b : BrokerState) (y : System)
        → BrokerStep p authority y.daemon.broker b
        → Step y (record y { daemon = record y.daemon { broker = b } })
    fires :
        (nonce : String) (y : System)
        → Step y (record y {
          daemon = record y.daemon { due = discard (λ x. x.0 === nonce) y.daemon.due };
        })

  pub data Reachable : System → Type 0 where
    started : Reachable new_system
    steps : (y z : System) → Reachable y → Step y z → Reachable z
