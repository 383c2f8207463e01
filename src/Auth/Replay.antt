-- ===== src/Auth/Replay.antt =====
-- apps/broker/src/auth.ts and apps/broker/src/daemon.ts: the nonces that the broker remembers. A nonce is
-- used up by an accepted hello, and the timer of `session.hello` forgets it again after 60 seconds. `due`
-- are the used nonces with the time at which their timers started, and `seen` the accepted hellos.
use tabgrant.Common.{
  ℕ, ◌+◌, ◌≤◌, ◌≡◌, ◌≢◌, ◌⊎◌, refl, ap, ◌∙◌, subst, String, false, List, [], ◌∷◌, Option, none,
  some, inl, inr, arith, Bool-cases, All, All-change, All-Exists, Exists, ◌===◌, ===_iff, ===_refl,
  ===_sym, discard, if◌then◌else◌,
}
use tabgrant.Protocol.Platform.{Platform}
use tabgrant.Auth.Hello.{AuthHello, Verified, accepted, rejected, has_nonce, verify_auth_hello}
use tabgrant.Auth.HelloLaws.{verify_auth_hello-accepted_iff}

pub record Memory : Type 0 where
  pub clock : ℕ
  pub due : List (String × ℕ)
  pub seen : List (AuthHello × ℕ)

abbrev pub blank : Memory
blank = record { clock = 0; due = []; seen = [] }

-- `usedNonces`
abbrev pub used_nonces : List (String × ℕ) → List String
used_nonces [] = []
used_nonces (d ∷ ds) = d.0 ∷ used_nonces ds

-- When the timer of a used nonce started.
abbrev pub started_at : String → List (String × ℕ) → Option ℕ
started_at n [] = none
started_at n (d ∷ ds) = let later = started_at n ds in if d.0 === n then some d.1 else later

abbrev pub remember : ℕ → AuthHello → Memory → Verified → Memory
remember now h m (accepted k later) = record {
  clock = now;
  due = (h.nonce, now) ∷ m.due;
  seen = (h, now) ∷ m.seen;
}
remember now h m (rejected e) = record m { clock = now }

-- `session.hello` on a connection without a context.
unfoldable pub hear : Platform → String → ℕ → AuthHello → Memory → Memory
hear p secret now h m = remember now h m (verify_auth_hello p secret now (used_nonces m.due) h)

-- `this.usedNonces.delete(auth.nonce)` of the timer.
abbrev pub forget_nonce : String → ℕ → Memory → Memory
forget_nonce n now m = record m { clock = now; due = discard (λ d. d.0 === n) m.due }

module _ (p : Platform) (secret : String) where
  -- The clock does not run backwards, and a timer does not fire early.
  pub data Step : Memory → Memory → Type 0 where
    hears : (now : ℕ) (h : AuthHello) (m : Memory) → m.clock ≤ now → Step m (hear p secret now h m)
    fires :
        (n : String) (since now : ℕ) (m : Memory)
        → started_at n m.due ≡ some since
        → m.clock ≤ now
        → since + 60000 ≤ now
        → Step m (forget_nonce n now m)

  pub data Reachable : Memory → Type 0 where
    started : Reachable blank
    steps : (m m' : Memory) → Reachable m → Step m m' → Reachable m'

-- A hello was accepted early enough to be late, and it is 60 seconds old or its nonce is still used.
record IsKept (clock : ℕ) (due : List (String × ℕ)) (s : AuthHello × ℕ) : Type 0 where
  timely : s.0.timestamp ≤ s.1 + 30000
  guarded : (s.1 + 60000 ≤ clock) ⊎ (started_at s.0.nonce due ≡ some s.1)

started_at-absent :
    (n : String) (due : List (String × ℕ)) (t : ℕ)
    → has_nonce n (used_nonces due) ≡ false
    → started_at n due ≢ some t
started_at-absent n [] t fresh e = cc
started_at-absent n (d ∷ ds) t fresh e =
    let miss : (d.0 === n) ≡ false = ground arith in
    started_at-absent n ds t (ground arith) (rw miss at e)

started_at-discard :
    (n m : String) (due : List (String × ℕ))
    → (m === n) ≡ false
    → started_at m (discard (λ d. d.0 === n) due) ≡ started_at m due
started_at-discard n m [] other = refl
started_at-discard n m (d ∷ ds) other = elim (Bool-cases (d.0 === n)) [
  | inl hit ↦
      let is : d.0 ≡ n = (===_iff d.0 n).0 hit in
      rw (hit, is, ===_sym m n other) (started_at-discard n m ds other)
  | inr miss ↦
      rw miss (ap (λ x. if d.0 === m then some d.1 else x) (started_at-discard n m ds other))
]

-- An entry under a fresh nonce leaves what is kept.
IsKept-remember :
    (now clock : ℕ) (n : String) (due : List (String × ℕ))
    → clock ≤ now
    → has_nonce n (used_nonces due) ≡ false
    → (s : AuthHello × ℕ) → IsKept clock due s
    → IsKept now ((n, now) ∷ due) s
IsKept-remember now clock n due later fresh s kept = record {
  timely = kept.timely;
  guarded = elim kept.guarded [
    | inl old ↦ inl (omega (arith, old, later))
    | inr found ↦ elim (Bool-cases (n === s.0.nonce)) [
      | inr other ↦ inr (rw other found)
      | inl same ↦
          let is : n ≡ s.0.nonce = (===_iff n s.0.nonce).0 same in
          absurd (
            started_at-absent s.0.nonce due s.1
              (subst (λ x. has_nonce x (used_nonces due) ≡ false) is fresh) found)
    ]
  ];
}

IsKept-forget :
    (now clock : ℕ) (n : String) (t : ℕ) (due : List (String × ℕ))
    → clock ≤ now
    → started_at n due ≡ some t
    → t + 60000 ≤ now
    → (s : AuthHello × ℕ) → IsKept clock due s
    → IsKept now (discard (λ d. d.0 === n) due) s
IsKept-forget now clock n t due later at over s kept = record {
  timely = kept.timely;
  guarded = elim kept.guarded [
    | inl old ↦ inl (omega (arith, old, later))
    | inr found ↦ elim (Bool-cases (s.0.nonce === n)) [
      | inr other ↦ inr (started_at-discard n s.0.nonce due other ∙ found)
      | inl same ↦
          let is : s.0.nonce ≡ n = (===_iff s.0.nonce n).0 same in
          let there : started_at n due ≡ some s.1 =
            subst (λ x. started_at x due ≡ some s.1) is found in
          let when : t ≡ s.1 = cc in inl (omega (arith, over, when))
    ]
  ];
}

IsKept-wait :
    (now clock : ℕ) (due : List (String × ℕ))
    → clock ≤ now
    → (s : AuthHello × ℕ) → IsKept clock due s
    → IsKept now due s
IsKept-wait now clock due later s kept = record {
  timely = kept.timely;
  guarded = elim kept.guarded [ inl old ↦ inl (omega (arith, old, later)) | inr found ↦ inr found ];
}

module _ (p : Platform) (secret : String) where
  remember-IsKept :
      (now : ℕ) (h : AuthHello) (m : Memory) (v : Verified)
      → verify_auth_hello p secret now (used_nonces m.due) h ≡ v
      → m.clock ≤ now
      → All (IsKept m.clock m.due) m.seen
      → All (IsKept (remember now h m v).clock (remember now h m v).due) (remember now h m v).seen
  remember-IsKept now h m (rejected e) is later kept =
      All-change (IsKept-wait now m.clock m.due later) m.seen kept
  remember-IsKept now h m (accepted k used) is later kept =
      let (genuine, _, _) =
        (verify_auth_hello-accepted_iff p secret now (used_nonces m.due) h k used).0 is in
      (
        record { timely = genuine.not_early; guarded = inr (rw (===_refl h.nonce) refl) },
        All-change (IsKept-remember now m.clock h.nonce m.due later genuine.fresh) m.seen kept,
      )

  Step-IsKept :
      (m m' : Memory)
      → Step p secret m m'
      → All (IsKept m.clock m.due) m.seen
      → All (IsKept m'.clock m'.due) m'.seen
  unfolding hear
  Step-IsKept _ _ (hears now h m later) kept = remember-IsKept now h m _ refl later kept
  Step-IsKept _ _ (fires n since now m at later over) kept =
      All-change (IsKept-forget now m.clock n since m.due later at over) m.seen kept

  Reachable-IsKept : (m : Memory) → Reachable p secret m → All (IsKept m.clock m.due) m.seen
  Reachable-IsKept _ started = tt
  Reachable-IsKept _ (steps m m' past step) = Step-IsKept m m' step (Reachable-IsKept m past)

  -- In every history of hellos and timers, a hello that was accepted at `t` is accepted again at `now`, not
  -- before `t`, only in one millisecond: 60 seconds after `t`, which is 30 seconds after its timestamp.
  pub replay-IsLate :
      (m : Memory) (now t : ℕ) (h k : AuthHello) (later : List String)
      → Reachable p secret m
      → m.clock ≤ now
      → Exists (λ s. s ≡ (h, t)) m.seen
      → verify_auth_hello p secret now (used_nonces m.due) h ≡ accepted k later
      → (now ≡ t + 60000) × (now ≡ h.timestamp + 30000)
  replay-IsLate m now t h k later past after there again =
      let (genuine, _, _) =
        (verify_auth_hello-accepted_iff p secret now (used_nonces m.due) h k later).0 again in
      let kept : IsKept m.clock m.due (h, t) =
        All-Exists (IsKept m.clock m.due) (h, t) m.seen (Reachable-IsKept m past) there in
      elim kept.guarded [
        | inl old ↦
            let a = kept.timely in
            let b = genuine.not_late in
            (omega (arith, a, b, old, after), omega (arith, a, b, old, after))
        | inr found ↦ absurd (started_at-absent h.nonce m.due t genuine.fresh found)
      ]
