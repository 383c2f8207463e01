-- ===== src/Daemon/Prompts.antt =====
-- The pairing prompts and the attempts in every history of a `BrokerDaemon` of apps/broker/src/daemon.ts.
use tabgrant.Common.{
  ℕ, ◌≡◌, refl, sym, ap, ◌∙◌, String, Bool, true, false, inl, inr, arith, Bool-cases, by_cases,
  ◌==◌,
}
use tabgrant.Protocol.Platform.{Platform}
use tabgrant.Auth.Browser.{EcdsaVerify}
use tabgrant.Daemon.Link.{After}
use tabgrant.Daemon.System.{
  System, put, Step, Reachable, requests, finds, prompts, persists, leaves, works, fires, started,
  steps,
}
use tabgrant.Daemon.Order.{is_prompting, IsOrderly, Turned}
use tabgrant.Daemon.Turns.{looked_up-Turned, prompted-Turned, persisted-Turned, left-Turned}
use tabgrant.Daemon.Requests.{on_request-Turned}

-- Whether a connection waits for a prompt.
abbrev pub prompts_at : System → ℕ → Bool
prompts_at y n = is_prompting (y.links n).stage

record IsExclusive (y : System) : Type 0 where
  order : (n : ℕ) → IsOrderly y.daemon (y.links n)
  opened : (n : ℕ) → prompts_at y n ≡ true → y.daemon.prompt_active ≡ true
  one : (m n : ℕ) → prompts_at y m ≡ true → prompts_at y n ≡ true → m ≡ n

prompts_at-mine :
    (n k : ℕ) (a : After) (y : System)
    → (k == n) ≡ true
    → prompts_at (put n a y) k ≡ is_prompting a.link.stage
prompts_at-mine n k a y e = rw e refl

prompts_at-other :
    (n k : ℕ) (a : After) (y : System)
    → (k == n) ≡ false
    → prompts_at (put n a y) k ≡ prompts_at y k
prompts_at-other n k a y e = rw e refl

module _ (n : ℕ) (a : After) (y : System) (h : IsExclusive y)
    (t : Turned y.daemon (y.links n) a) where
  put-order : (k : ℕ) → IsOrderly a.daemon ((put n a y).links k)
  put-order k =
      by_cases (IsOrderly a.daemon) (k == n) (λ mine. t.order)
        (λ other. record { mark = (h.order k).mark; few = (h.order k).few; all = t.order.all })

  -- The prompt stays as it is.
  prompts_at-same :
      is_prompting a.link.stage ≡ prompts_at y n
      → (k : ℕ) → prompts_at (put n a y) k ≡ prompts_at y k
  prompts_at-same same k = elim (Bool-cases (k == n)) [
    | inr other ↦ prompts_at-other n k a y other
    | inl mine ↦
        let is : n ≡ k = ground arith in prompts_at-mine n k a y mine ∙ same ∙ ap (prompts_at y) is
  ]

  -- No other connection prompts after a prompt has opened, and none at all after it has closed.
  prompts_at-none :
      y.daemon.prompt_active ≡ false → (k : ℕ) → prompts_at (put n a y) k ≡ true → k ≡ n
  prompts_at-none shut k e = elim (Bool-cases (k == n)) [
    | inl mine ↦ ground arith
    | inr other ↦ let before = h.opened k (sym (prompts_at-other n k a y other) ∙ e) in absurd (cc)
  ]

  prompts_at-closed :
      prompts_at y n ≡ true
      → is_prompting a.link.stage ≡ false
      → (k : ℕ) → prompts_at (put n a y) k ≡ false
  prompts_at-closed mine gone k = elim (Bool-cases (k == n)) [
    | inl here ↦ prompts_at-mine n k a y here ∙ gone
    | inr other ↦ elim (Bool-cases (prompts_at y k)) [
      | inr quiet ↦ prompts_at-other n k a y other ∙ quiet
      | inl also ↦ let is : k ≡ n = h.one k n also mine in ground arith
    ]
  ]

  put-IsExclusive : IsExclusive (put n a y)
  put-IsExclusive = elim t.prompt [
    | inl (active, same) ↦ record {
      order = put-order;
      opened = λ k e. active ∙ h.opened k (sym (prompts_at-same same k) ∙ e);
      one = λ j k e f.
          h.one j k (sym (prompts_at-same same j) ∙ e) (sym (prompts_at-same same k) ∙ f);
    }
    | inr (inl (shut, open')) ↦ record {
      order = put-order;
      opened = λ k e. open';
      one = λ j k e f. prompts_at-none shut j e ∙ sym (prompts_at-none shut k f);
    }
    | inr (inr (mine, gone)) ↦ record {
      order = put-order;
      opened = λ k e. absurd (let quiet = prompts_at-closed mine gone k in cc);
      one = λ j k e f. absurd (let quiet = prompts_at-closed mine gone j in cc);
    }
  ]

module _ (p : Platform) (ecdsa : EcdsaVerify) (secret authority : String) where
  Step-IsExclusive :
      (y z : System) → Step p ecdsa secret authority y z → IsExclusive y → IsExclusive z
  Step-IsExclusive _ _ (requests n o method params y) h =
      put-IsExclusive n _ y h
        (on_request-Turned p ecdsa secret o method params y.daemon (y.links n) (h.order n))
  Step-IsExclusive _ _ (finds n id random now found start y at) h =
      put-IsExclusive n _ y h
        (looked_up-Turned p ecdsa id random now found start y.daemon (y.links n) at (h.order n))
  Step-IsExclusive _ _ (prompts n id random now given start y at) h =
      put-IsExclusive n _ y h
        (prompted-Turned p ecdsa id random now given start y.daemon (y.links n) at (h.order n))
  Step-IsExclusive _ _ (persists n now audit_ok written c s y at mine) h =
      put-IsExclusive n _ y h
        (persisted-Turned p ecdsa now audit_ok written c s y.daemon (y.links n) at (h.order n))
  Step-IsExclusive _ _ (leaves n context_id uuid resolved c s y at mine) h =
      put-IsExclusive n _ y h
        (left-Turned p ecdsa context_id uuid resolved c s y.daemon (y.links n) at (h.order n))
  Step-IsExclusive _ _ (works b y step) h = record {
    order = λ n. record { mark = (h.order n).mark; few = (h.order n).few; all = (h.order n).all };
    opened = h.opened;
    one = h.one;
  }
  Step-IsExclusive _ _ (fires nonce y) h = record {
    order = λ n. record { mark = (h.order n).mark; few = (h.order n).few; all = (h.order n).all };
    opened = h.opened;
    one = h.one;
  }

  Reachable-IsExclusive : (y : System) → Reachable p ecdsa secret authority y → IsExclusive y
  Reachable-IsExclusive _ started = record {
    order = λ n. record { mark = refl; few = omega arith; all = omega arith };
    opened = λ n e. absurd (cc);
    one = λ m n e f. absurd (cc);
  }
  Reachable-IsExclusive _ (steps y z past step) =
      Step-IsExclusive y z step (Reachable-IsExclusive y past)

  -- In every history of the daemon, at most one connection waits for a pairing prompt.
  pub prompt_unique :
      (y : System) (m n : ℕ)
      → Reachable p ecdsa secret authority y
      → prompts_at y m ≡ true
      → prompts_at y n ≡ true
      → m ≡ n
  prompt_unique y m n past = (Reachable-IsExclusive y past).one m n

  -- In every history of the daemon, a connection is marked exactly while an authentication of it waits, and
  -- at most three pairing attempts are counted for it and for all together.
  pub Reachable-IsOrderly :
      (y : System) (n : ℕ) → Reachable p ecdsa secret authority y → IsOrderly y.daemon (y.links n)
  Reachable-IsOrderly y n past = (Reachable-IsExclusive y past).order n
