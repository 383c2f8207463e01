-- ===== src/Daemon/Witnesses.antt =====
-- What stands behind the challenges, the stages and the role of a connection of apps/broker/src/daemon.ts.
use tabgrant.Common.{ℕ, ◌≡◌, ◌⊎◌, String, true, List, ◌∷◌, Option, none, some, inl, inr, Exists}
use tabgrant.Protocol.Platform.{Platform}
use tabgrant.Broker.Records.{Role, agent, browser}
use tabgrant.Auth.Browser.{
  EcdsaVerify, BrowserAuthStart, BrowserAuthChallenge, verify_browser_auth_signature,
}
use tabgrant.Daemon.Link.{
  Witness, Session, Stage, Link, paired, approved, proved, idle, looking_up, prompting, persisting,
  leaving,
}

abbrev pub Among : Witness → List Witness → Type 0
Among w = Exists (λ x. x ≡ w)

-- The pairing file has the key, or a person approved it.
abbrev pub Known : List Witness → BrowserAuthStart → Type 0
Known log s = Among (paired s) log ⊎ Among (approved s) log

module _ (p : Platform) (ecdsa : EcdsaVerify) where
  -- The challenge was signed with its key in its time, and the key is known.
  abbrev pub Proven : List Witness → BrowserAuthChallenge → Type 0
  Proven log c =
      (signature : String) × (now : ℕ) × Among (proved c signature now) log
      × (verify_browser_auth_signature p ecdsa c signature now ≡ true)
      × Known log c.start

  abbrev pub Vouched : List Witness → String → Type 0
  Vouched log id = (c : BrowserAuthChallenge) × (Proven log c × (c.start.browser_instance_id ≡ id))

  abbrev pub OfChallenge : List Witness → Option BrowserAuthChallenge → Type 0
  OfChallenge log none = Unit
  OfChallenge log (some c) = Known log c.start

  abbrev pub OfStage : List Witness → Stage → Type 0
  OfStage log idle = Unit
  OfStage log (looking_up s) = Unit
  OfStage log (prompting s) = Unit
  OfStage log (persisting c) = Proven log c
  OfStage log (leaving c ok) = Proven log c

  abbrev pub OfRole : List Witness → Role → String → Type 0
  OfRole log agent id = Unit
  OfRole log browser id = Vouched log id

  abbrev pub OfSession : List Witness → Option Session → Type 0
  OfSession log none = Unit
  OfSession log (some s) = OfRole log s.auth.role s.auth.instance_id

  pub record IsBacked (log : List Witness) (l : Link) : Type 0 where
    pub challenge : OfChallenge log l.challenge
    pub stage : OfStage log l.stage
    pub session : OfSession log l.session

  module _ (w : Witness) (log : List Witness) where
    pub Known-later : (s : BrowserAuthStart) → Known log s → Known (w ∷ log) s
    Known-later s (inl found) = inl (inr found)
    Known-later s (inr given) = inr (inr given)

    pub Proven-later : (c : BrowserAuthChallenge) → Proven log c → Proven (w ∷ log) c
    Proven-later c (signature, now, there, right, known) =
        (signature, now, inr there, right, Known-later c.start known)

    pub OfChallenge-later :
        (o : Option BrowserAuthChallenge) → OfChallenge log o → OfChallenge (w ∷ log) o
    OfChallenge-later none h = tt
    OfChallenge-later (some c) h = Known-later c.start h

    pub OfStage-later : (s : Stage) → OfStage log s → OfStage (w ∷ log) s
    OfStage-later idle h = tt
    OfStage-later (looking_up s) h = tt
    OfStage-later (prompting s) h = tt
    OfStage-later (persisting c) h = Proven-later c h
    OfStage-later (leaving c ok) h = Proven-later c h

    pub OfRole-later : (r : Role) (id : String) → OfRole log r id → OfRole (w ∷ log) r id
    OfRole-later agent id h = tt
    OfRole-later browser id (c, (proven, is)) = (c, (Proven-later c proven, is))

    pub OfSession-later : (o : Option Session) → OfSession log o → OfSession (w ∷ log) o
    OfSession-later none h = tt
    OfSession-later (some s) h = OfRole-later s.auth.role s.auth.instance_id h

    pub IsBacked-later : (l : Link) → IsBacked log l → IsBacked (w ∷ log) l
    IsBacked-later l h = record {
      challenge = OfChallenge-later l.challenge h.challenge;
      stage = OfStage-later l.stage h.stage;
      session = OfSession-later l.session h.session;
    }
