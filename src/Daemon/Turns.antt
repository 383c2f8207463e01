-- ===== src/Daemon/Turns.antt =====
-- What a stretch of a connection of apps/broker/src/daemon.ts does to the prompt, to the mark of an active
-- authentication and to the counted attempts.
use tabgrant.Common.{
  ◌≤◌, length, ℕ, ◌≡◌, refl, sym, ap, ◌∙◌, String, Bool, true, false, not, ◌∷◌, Option, none, some,
  inl, inr, by_cases, ◌===◌, if◌then◌else◌, is_some,
}
use tabgrant.Protocol.Platform.{Platform}
use tabgrant.Auth.Hello.{AuthHello, Verified, accepted, rejected}
use tabgrant.Auth.Browser.{
  EcdsaVerify, BrowserAuthStart, start_schema, BrowserPairingRequest, pairing_request_schema,
  BrowserAuthComplete, complete_schema, BrowserAuthChallenge, create_browser_auth_challenge,
  verify_browser_auth_signature,
}
use tabgrant.Daemon.Attempts.{reserve, reserve-IsBounded}
use tabgrant.Daemon.Link.{
  Daemon, Session, Link, greet, session_hello, clear_expired, is_occupied, is_agent, release,
  paired, approved, looking_up, prompting, persisting, leaving, waits,
}
use tabgrant.Daemon.Browser.{
  give_challenge, auth_start, looked_up, in_cooldown, open_prompt, auth_pair, prompted,
  proof_rejected, leave, take_challenge, auth_complete, persisted, left,
}
use tabgrant.Daemon.Order.{
  is_busy, is_prompting, prompting_busy, IsOrderly, Turn, Turned, calm, opening, released, cleared,
  free,
}

module _ (p : Platform) (ecdsa : EcdsaVerify) where
  give_challenge-Turned :
      (pairs : Bool) (d d' : Daemon) (l : Link) (o : Option BrowserAuthChallenge)
      → IsOrderly d' l
      → Turn d.prompt_active d'.prompt_active (is_prompting l.stage) false
      → Turned d l (give_challenge pairs d' l o)
  give_challenge-Turned pairs d d' l none h prompt = record {
    order = released d' l h;
    prompt = prompt;
  }
  give_challenge-Turned pairs d d' l (some c) h prompt = record {
    order = record { mark = refl; few = h.few; all = h.all };
    prompt = prompt;
  }

  pub looked_up-Turned :
      (id random : String) (now : ℕ) (found : Option Bool) (start : BrowserAuthStart) (d : Daemon)
      (l : Link)
      → l.stage ≡ looking_up start
      → IsOrderly d l
      → Turned d l (looked_up p id random now found start d l)
  unfolding looked_up
  looked_up-Turned id random now none start d l at h =
      calm d d l (release l) _ (released d l h) refl (sym (ap is_prompting at))
  looked_up-Turned id random now (some false) start d l at h =
      calm d d l (release l) _ (released d l h) refl (sym (ap is_prompting at))
  looked_up-Turned id random now (some true) start d l at h =
      give_challenge-Turned false d (record d { witnessed = paired start ∷ d.witnessed }) l
        (create_browser_auth_challenge p id random now start)
        (record { mark = h.mark; few = h.few; all = h.all }) (inl (refl, sym (ap is_prompting at)))

  pub prompted-Turned :
      (id random : String) (now : ℕ) (given : Bool) (start : BrowserAuthStart) (d : Daemon)
      (l : Link)
      → l.stage ≡ prompting start
      → IsOrderly d l
      → Turned d l (prompted p id random now given start d l)
  unfolding prompted
  prompted-Turned id random now true start d l at h =
      give_challenge-Turned true d
        (record d {
          prompt_active = false;
          last_prompt_at = some now;
          witnessed = approved start ∷ d.witnessed;
        })
        l (create_browser_auth_challenge p id random now start)
        (record { mark = h.mark; few = h.few; all = h.all }) (inr (inr (ap is_prompting at, refl)))
  prompted-Turned id random now false start d l at h = record {
    order = record { mark = refl; few = h.few; all = h.all };
    prompt = inr (inr (ap is_prompting at, refl));
  }

  pub session_hello-Turned :
      (secret : String) (context_id : ℕ) (uuid : String) (now : ℕ) (candidate : Option AuthHello)
      (d : Daemon) (l : Link)
      → IsOrderly d l
      → Turned d l (session_hello p secret context_id uuid now candidate d l)
  unfolding session_hello
  session_hello-Turned secret context_id uuid now none d l h =
      by_cases (Turned d l) (is_some l.session) (λ again. calm d d l l _ h refl refl)
        (λ first. calm d d l l _ h refl refl)
  session_hello-Turned secret context_id uuid now (some hello) d l h =
      by_cases (Turned d l) (is_some l.session) (λ again. calm d d l l _ h refl refl)
        (λ first. greeted _)
    where
      greeted : (v : Verified) → Turned d l (greet hello.nonce context_id uuid now hello d l v)
      greeted (rejected e) = calm d d l l _ h refl refl
      greeted (accepted auth later) =
          calm d _ l _ _ (record { mark = h.mark; few = h.few; all = h.all }) refl refl

  pub auth_start-Turned :
      (now : ℕ) (s : Session) (start : BrowserAuthStart) (d : Daemon) (l : Link)
      → IsOrderly d l
      → Turned d l (auth_start p now s start d l)
  unfolding auth_start
  auth_start-Turned now s start d l h =
      let (order, same) = cleared d now l h in
      by_cases (Turned d l) (not (is_agent s)) (λ _. calm d d l l _ h refl refl)
        (λ _.
          by_cases (Turned d l) (not (start_schema p start)) (λ _. calm d d l l _ h refl refl)
            (λ _.
              by_cases (Turned d l) (is_occupied (clear_expired now l))
                (λ _. calm d d l (clear_expired now l) _ order refl same)
                (λ vacant.
                  calm d d l _ _ (record { mark = refl; few = order.few; all = order.all }) refl
                    (sym (free d (clear_expired now l) order vacant) ∙ same))))

  -- The connection has no prompt, and its challenge is cleared.
  open_prompt-Turned :
      (now : ℕ) (start : BrowserAuthStart) (d : Daemon) (l₀ l : Link)
      → IsOrderly d l
      → is_prompting l₀.stage ≡ false
      → Turned d l₀ (open_prompt now start d l)
  unfolding open_prompt
  open_prompt-Turned now start d l₀ l h none' =
      let mine = reserve 300000 3 now l.attempts in
      let room = reserve 600000 3 now d.global_attempts in
      let tries = reserve-IsBounded 300000 3 now l.attempts h.few in
      let total = reserve-IsBounded 600000 3 now d.global_attempts h.all in
      let back : IsOrderly d (release (record l { attempts = mine.0 })) = record {
        mark = refl;
        few = tries;
        all = h.all;
      } in
      by_cases (Turned d l₀) (not mine.1) (λ _. calm d d l₀ _ _ back refl (sym none'))
        (λ _.
          by_cases (Turned d l₀) d.prompt_active (λ _. calm d d l₀ _ _ back refl (sym none'))
            (λ shut.
              by_cases (Turned d l₀) (in_cooldown now d.last_prompt_at)
                (λ _. calm d d l₀ _ _ back refl (sym none'))
                (λ _.
                  by_cases (Turned d l₀) (not room.1)
                    (λ _.
                      calm d _ l₀ _ _ (record { mark = refl; few = tries; all = total }) refl
                        (sym none'))
                    (λ _.
                      opening d _ l₀ _ waits (record { mark = refl; few = tries; all = total }) shut
                        refl))))

  pub auth_pair-Turned :
      (now : ℕ) (s : Session) (request : BrowserPairingRequest) (d : Daemon) (l : Link)
      → IsOrderly d l
      → Turned d l (auth_pair p now s request d l)
  unfolding auth_pair
  auth_pair-Turned now s request d l h =
      let (order, same) = cleared d now l h in
      by_cases (Turned d l) (not (is_agent s)) (λ _. calm d d l l _ h refl refl)
        (λ _.
          by_cases (Turned d l) (not (pairing_request_schema p request))
            (λ _. calm d d l l _ h refl refl)
            (λ _.
              by_cases (Turned d l) (is_occupied (clear_expired now l))
                (λ _. calm d d l (clear_expired now l) _ order refl same)
                (λ vacant.
                  open_prompt-Turned now request.start d l (clear_expired now l) order
                    (sym same ∙ free d (clear_expired now l) order vacant))))

  leave-Turned :
      (now : ℕ) (audit_ok : Bool) (c : BrowserAuthChallenge) (s : Session) (d d' : Daemon)
      (l l' : Link)
      → IsOrderly d' l
      → l'.transition_active ≡ true
      → length l'.attempts ≤ 3
      → d'.prompt_active ≡ d.prompt_active
      → is_prompting l.stage ≡ false
      → Turned d l (leave now audit_ok c s d' l')
  unfolding leave
  leave-Turned now audit_ok c s d d' l l' h marked few same none' =
      calm d _ l _ _ (record { mark = marked; few = few; all = h.all }) same (sym none')

  take_challenge-Turned :
      (now : ℕ) (audit_ok : Bool) (signature : String) (c : BrowserAuthChallenge) (s : Session)
      (d : Daemon) (l₀ l : Link)
      → IsOrderly d l₀
      → length l.attempts ≤ 3
      → is_prompting l₀.stage ≡ false
      → Turned d l₀ (take_challenge p ecdsa now audit_ok signature c s d l)
  unfolding take_challenge
  take_challenge-Turned now audit_ok signature c s d l₀ l h few none' =
      by_cases (Turned d l₀) (not (verify_browser_auth_signature p ecdsa c signature now))
        (λ _. calm d d l₀ _ _ (record { mark = refl; few = few; all = h.all }) refl (sym none'))
        (λ right.
          by_cases (Turned d l₀) l.pairs_key
            (λ pairs.
              calm d _ l₀ _ _ (record { mark = refl; few = few; all = h.all }) refl (sym none'))
            (λ known.
              leave-Turned now audit_ok c s d _ l₀
                (record l { challenge = none; pairs_key = false; transition_active = true })
                (record { mark = h.mark; few = h.few; all = h.all }) refl few refl none'))

  taken-Turned :
      (now : ℕ) (audit_ok : Bool) (s : Session) (completion : BrowserAuthComplete) (d : Daemon)
      (l₀ l : Link) (o : Option BrowserAuthChallenge)
      → IsOrderly d l₀
      → IsOrderly d l
      → is_prompting l₀.stage ≡ false
      → is_prompting l.stage ≡ false
      → Turned d l₀ (elim o [
        | none ↦ proof_rejected d l
        | some c ↦
            if not (completion.challenge_id === c.challenge_id)
            then proof_rejected d l
            else take_challenge p ecdsa now audit_ok completion.signature c s d l
      ])
  taken-Turned now audit_ok s completion d l₀ l none before h none' quiet =
      calm d d l₀ l _ h refl (quiet ∙ sym none')
  taken-Turned now audit_ok s completion d l₀ l (some c) before h none' quiet =
      by_cases (Turned d l₀) (not (completion.challenge_id === c.challenge_id))
        (λ _. calm d d l₀ l _ h refl (quiet ∙ sym none'))
        (λ _. take_challenge-Turned now audit_ok completion.signature c s d l₀ l before h.few none')

  pub auth_complete-Turned :
      (now : ℕ) (audit_ok : Bool) (s : Session) (completion : BrowserAuthComplete) (d : Daemon)
      (l : Link)
      → IsOrderly d l
      → Turned d l (auth_complete p ecdsa now audit_ok s completion d l)
  unfolding auth_complete
  auth_complete-Turned now audit_ok s completion d l h =
      let opened = clear_expired now l in
      let (order, same) = cleared d now l h in
      by_cases (Turned d l) (not (is_agent s)) (λ _. calm d d l l _ h refl refl)
        (λ _.
          by_cases (Turned d l) (not (complete_schema p completion))
            (λ _. calm d d l l _ h refl refl)
            (λ _.
              by_cases (Turned d l) opened.transition_active
                (λ _. calm d d l opened _ order refl same)
                (λ unmarked.
                  let quiet = prompting_busy opened.stage (sym order.mark ∙ unmarked) in
                  taken-Turned now audit_ok s completion d l opened opened.challenge h order
                    (sym same ∙ quiet) quiet)))

  pub persisted-Turned :
      (now : ℕ) (audit_ok written : Bool) (c : BrowserAuthChallenge) (s : Session) (d : Daemon)
      (l : Link)
      → l.stage ≡ persisting c
      → IsOrderly d l
      → Turned d l (persisted now audit_ok written c s d l)
  unfolding persisted
  persisted-Turned now audit_ok written c s d l at h =
      let none' : is_prompting l.stage ≡ false = ap is_prompting at in
      by_cases (Turned d l) written
        (λ _. leave-Turned now audit_ok c s d d l l h (h.mark ∙ ap is_busy at) h.few refl none')
        (λ _. calm d d l (release l) _ (released d l h) refl (sym none'))

  pub left-Turned :
      (context_id : ℕ) (uuid : String) (resolved : Bool) (c : BrowserAuthChallenge) (s : Session)
      (d : Daemon) (l : Link)
      → l.stage ≡ leaving c resolved
      → IsOrderly d l
      → Turned d l (left context_id uuid resolved c s d l)
  unfolding left
  left-Turned context_id uuid resolved c s d l at h =
      let none' : is_prompting l.stage ≡ false = ap is_prompting at in
      by_cases (Turned d l) resolved
        (λ _. calm d _ l _ _ (record { mark = refl; few = h.few; all = h.all }) refl (sym none'))
        (λ _. calm d d l (release l) _ (released d l h) refl (sym none'))
