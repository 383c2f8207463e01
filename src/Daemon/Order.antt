-- ===== src/Daemon/Order.antt =====
-- The marks, the counted attempts and the prompts of the connections of apps/broker/src/daemon.ts.
use tabgrant.Common.{
  ◌≤◌, length, ||-split, ℕ, ◌≡◌, ◌⊎◌, refl, sym, ◌∙◌, Bool, true, false, inl, inr, by_cases,
  is_some,
}
use tabgrant.Daemon.Link.{
  Daemon, Stage, Link, Outcome, After, is_expired, clear_expired, is_occupied, release, idle,
  looking_up, prompting, persisting, leaving,
}

abbrev pub is_busy : Stage → Bool
is_busy idle = false
is_busy (looking_up s) = true
is_busy (prompting s) = true
is_busy (persisting c) = true
is_busy (leaving c ok) = true

abbrev pub is_prompting : Stage → Bool
is_prompting idle = false
is_prompting (looking_up s) = false
is_prompting (prompting s) = true
is_prompting (persisting c) = false
is_prompting (leaving c ok) = false

pub prompting_busy : (s : Stage) → is_busy s ≡ false → is_prompting s ≡ false
prompting_busy idle h = refl
prompting_busy (looking_up s) h = refl
prompting_busy (prompting s) h = h
prompting_busy (persisting c) h = refl
prompting_busy (leaving c ok) h = refl

-- A connection is marked exactly while an authentication waits, and the attempts are within their limits.
pub record IsOrderly (d : Daemon) (l : Link) : Type 0 where
  pub mark : l.transition_active ≡ is_busy l.stage
  pub few : length l.attempts ≤ 3
  pub all : length d.global_attempts ≤ 3

-- Whether a prompt is open in the daemon, and on the connection, before and after: it stays as it is, opens
-- where none was open, or closes.
abbrev pub Turn : Bool → Bool → Bool → Bool → Type 0
Turn was is here there =
    ((is ≡ was) × (there ≡ here))
    ⊎ (((was ≡ false) × (is ≡ true)) ⊎ ((here ≡ true) × (there ≡ false)))

abbrev pub Prompt : Daemon → Link → After → Type 0
Prompt d l a =
    Turn d.prompt_active a.daemon.prompt_active (is_prompting l.stage) (is_prompting a.link.stage)

pub record Turned (d : Daemon) (l : Link) (a : After) : Type 0 where
  pub order : IsOrderly a.daemon a.link
  pub prompt : Prompt d l a

-- Nothing of the prompt changes.
pub calm :
    (d d' : Daemon) (l l' : Link) (o : Outcome)
    → IsOrderly d' l'
    → d'.prompt_active ≡ d.prompt_active
    → is_prompting l'.stage ≡ is_prompting l.stage
    → Turned d l (record { daemon = d'; link = l'; outcome = o })
calm d d' l l' o order same quiet = record { order = order; prompt = inl (same, quiet) }

pub opening :
    (d d' : Daemon) (l l' : Link) (o : Outcome)
    → IsOrderly d' l'
    → d.prompt_active ≡ false
    → d'.prompt_active ≡ true
    → Turned d l (record { daemon = d'; link = l'; outcome = o })
opening d d' l l' o order shut open' = record { order = order; prompt = inr (inl (shut, open')) }

pub released : (d : Daemon) (l : Link) → IsOrderly d l → IsOrderly d (release l)
released d l h = record { mark = refl; few = h.few; all = h.all }

-- Clearing an expired challenge leaves stage, mark and attempts.
pub cleared :
    (d : Daemon) (now : ℕ) (l : Link)
    → IsOrderly d l
    → IsOrderly d (clear_expired now l)
      × (is_prompting (clear_expired now l).stage ≡ is_prompting l.stage)
cleared d now l h =
    by_cases (λ (k : Link). IsOrderly d k × (is_prompting k.stage ≡ is_prompting l.stage))
      (is_expired now l.challenge)
      (λ over. (record { mark = h.mark; few = h.few; all = h.all }, refl)) (λ fresh. (h, refl))

-- A connection that is not occupied has no prompt.
pub free :
    (d : Daemon) (l : Link) → IsOrderly d l → is_occupied l ≡ false → is_prompting l.stage ≡ false
free d l h clear =
    prompting_busy l.stage
      (sym h.mark ∙ (||-split l.transition_active (is_some l.challenge) clear).0)
