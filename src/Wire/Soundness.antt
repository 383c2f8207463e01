-- ===== src/Wire/Soundness.antt =====
-- What holds in every history of an `RpcPeer` of apps/broker/src/wire.ts, and that settling, ending and admitting
-- keep it.
use tabgrant.Common.{
  ℕ, ◌≤◌, ◌≡◌, ◌⊎◌, refl, sym, ap, ◌∙◌, subst, String, Bool, true, false, List, [], ◌∷◌, ◌++◌, map,
  length, Option, none, some, inl, inr, arith, by_cases, leb, ltb, ◌+◌, ◌<◌, All, Bool-cases,
}
use tabgrant.Protocol.Platform.{Platform}
use tabgrant.Wire.Peer.{
  Envelope, PeerError, Settlement, rejected, Window, Peer, new_peer, max_inbound_requests,
  inbound_request_window_ms, log_admission, max_inbound_requests_per_window, forget, waits, settle,
  destroy, window_over, fresh_window, admit_inbound_request, Handled, request, time_out, receive,
  answer,
}
use tabgrant.Wire.Once.{Distinct, Distinct-settle}

-- The identifiers of the promises that are settled.
abbrev pub settled_ids : {V : Type 0} → List (String × Settlement V) → List String
settled_ids [] = []
settled_ids (s ∷ rest) = s.0 ∷ settled_ids rest

abbrev pub known_ids : {V : Type 0} → Peer V → List String
known_ids st = st.pending ++ settled_ids st.settled

module _ {V : Type 0} (p : Platform) (stringify : Envelope V → List ℕ) where
  -- One synchronous stretch of a peer's code. A request takes an identifier that no other has had, and
  -- only a running handler returns.
  pub data Step : Peer V → Peer V → Type 0 where
    requests :
        (id method : String) (params : V) (st : Peer V)
        → waits id (known_ids st) ≡ false
        → Step st (request p stringify id method params st).0
    times_out : (id method : String) (st : Peer V) → Step st (time_out p stringify id method st)
    receives :
        (now : ℕ) (value : Option (Envelope V)) (st : Peer V)
        → Step st (receive p stringify now value st)
    answers :
        (id : String) (outcome : Handled V) (st : Peer V)
        → waits id st.running ≡ true
        → Step st (answer p stringify id outcome st)
    ends : (e : PeerError) (st : Peer V) → Step st (destroy e st)

  pub data Reachable : Peer V → Type 0 where
    started : Reachable new_peer
    steps : (s t : Peer V) → Reachable s → Step s t → Reachable t

-- Within a window at most 240 admissions, all in the minute from its opening on.
pub record IsPaced (w : Window) : Type 0 where
  pub few : length w.admitted ≤ max_inbound_requests_per_window
  pub within :
      All (λ t. (w.opened_at ≤ t) × (t < w.opened_at + inbound_request_window_ms)) w.admitted

-- A window opens when the one before it is over, or when the clock has gone back behind its opening.
abbrev pub Follows : Window → List Window → Type 0
Follows w [] = Unit
Follows w (v ∷ vs) =
    (v.opened_at + inbound_request_window_ms ≤ w.opened_at) ⊎ (w.opened_at < v.opened_at)

abbrev pub InTurn : List Window → Type 0
InTurn [] = Unit
InTurn (w ∷ ws) = Follows w ws × InTurn ws

-- The counter counts the admissions of the newest window, the one that is open.
pub data Counts (started_at : Option ℕ) (count : ℕ) (ws : List Window) : Type 0 where
  unopened : started_at ≡ none → ws ≡ [] → Counts started_at count ws
  opened :
      (w : Window) (older : List Window)
      → started_at ≡ some w.opened_at
      → ws ≡ w ∷ older
      → length w.admitted ≡ count
      → Counts started_at count ws

pub record IsRegular (started_at : Option ℕ) (count : ℕ) (ws : List Window) : Type 0 where
  pub paced : All IsPaced ws
  pub in_turn : InTurn ws
  pub counts : Counts started_at count ws

pub record IsSound {V : Type 0} (st : Peer V) : Type 0 where
  pub counted : st.inbound_requests ≡ length st.running
  pub flight : st.inbound_requests ≤ max_inbound_requests
  pub pace : IsRegular st.window_started_at st.requests_in_window st.windows
  pub over : (st.closed ≡ false) ⊎ (st.pending ≡ [])
  pub once : Distinct (known_ids st)

Follows-fresh :
    (now : ℕ) (started_at : Option ℕ) (count : ℕ) (ws : List Window)
    → window_over now started_at ≡ true
    → Counts started_at count ws
    → Follows (record { opened_at = now; admitted = [] }) ws
Follows-fresh now started_at count ws over (unopened e none_yet) = rw none_yet tt
Follows-fresh now started_at count ws over (opened w older e is n) =
    let over' = rw e at over in
    rw is (elim (Bool-cases (ltb now w.opened_at)) [
      | inl back ↦ inr (ground arith)
      | inr on ↦ inl (ground arith)
    ])

IsRegular-fresh :
    (now : ℕ) (started_at : Option ℕ) (count : ℕ) (ws : List Window)
    → window_over now started_at ≡ true
    → IsRegular started_at count ws
    → IsRegular (some now) 0 (record { opened_at = now; admitted = [] } ∷ ws)
IsRegular-fresh now started_at count ws over h = record {
  paced = (record { few = ground arith; within = tt }, h.paced);
  in_turn = (Follows-fresh now started_at count ws over h.counts, h.in_turn);
  counts = opened (record { opened_at = now; admitted = [] }) ws refl refl refl;
}

IsRegular-log :
    (now : ℕ) (w : Window) (older : List Window)
    → window_over now (some w.opened_at) ≡ false
    → length w.admitted < max_inbound_requests_per_window
    → All IsPaced (w ∷ older)
    → InTurn (w ∷ older)
    → IsRegular (some w.opened_at) (length w.admitted + 1) (log_admission now (w ∷ older))
IsRegular-log now w older current room paced in_turn = record {
  paced = (
    record { few = omega arith; within = ((ground arith, ground arith), IsPaced.within paced.0) },
    paced.1,
  );
  in_turn = (go older in_turn.0, in_turn.1);
  counts = opened (record w { admitted = now ∷ w.admitted }) older refl refl (omega arith);
}
  where
    go : (vs : List Window) → Follows w vs → Follows (record w { admitted = now ∷ w.admitted }) vs
    go [] f = tt
    go (v ∷ vs) f = f

log_admission-IsRegular :
    (now : ℕ) (started_at : Option ℕ) (count : ℕ) (ws : List Window)
    → window_over now started_at ≡ false
    → leb max_inbound_requests_per_window count ≡ false
    → IsRegular started_at count ws
    → IsRegular started_at (count + 1) (log_admission now ws)
log_admission-IsRegular now started_at count ws current room h = elim h.counts [
  | unopened e none_yet ↦ absurd (cc (rw e at current))
  | opened w older e is n ↦
      let below : length w.admitted < max_inbound_requests_per_window = rw n (ground arith) in
      let log =
        IsRegular-log now w older (rw e at current) below (rw is at h.paced) (rw is at h.in_turn) in
      rw (e, is, ← n) log
]

settled_ids-reject :
    {V : Type 0} (e : PeerError) (ids : List String) (old : List (String × Settlement V))
    → settled_ids (map (λ id. (id, rejected e)) ids ++ old) ≡ ids ++ settled_ids old
settled_ids-reject e [] old = refl
settled_ids-reject e (id ∷ ids) old = ap (◌∷◌ id) (settled_ids-reject e ids old)

module _ {V : Type 0} where
  -- Only the window's start, the writes and the events are different.
  pub IsSound-alike :
      (st st' : Peer V)
      → IsSound st
      → st'.inbound_requests ≡ st.inbound_requests
      → st'.running ≡ st.running
      → st'.closed ≡ st.closed
      → known_ids st' ≡ known_ids st
      → st'.pending ≡ st.pending
      → IsRegular st'.window_started_at st'.requests_in_window st'.windows
      → IsSound st'
  IsSound-alike st st' h inbound run shut known waiting pace = record {
    counted = inbound ∙ h.counted ∙ ap length (sym run);
    flight = subst (λ n. n ≤ max_inbound_requests) (sym inbound) h.flight;
    pace = pace;
    over = elim h.over [ inl open' ↦ inl (shut ∙ open') | inr none' ↦ inr (waiting ∙ none') ];
    once = subst Distinct (sym known) h.once;
  }

  pub destroy-IsSound : (e : PeerError) (st : Peer V) → IsSound st → IsSound (destroy e st)
  unfolding destroy
  destroy-IsSound e st h =
      by_cases IsSound st.closed (λ shut. h)
        (λ open'. record {
          counted = h.counted;
          flight = h.flight;
          pace = h.pace;
          over = inr refl;
          once = subst Distinct (sym (settled_ids-reject e st.pending st.settled)) h.once;
        })

  pub settle-IsSound :
      (id : String) (s : Settlement V) (st : Peer V)
      → waits id st.pending ≡ true
      → IsSound st
      → IsSound (settle id s st)
  settle-IsSound id s st there h = record {
    counted = h.counted;
    flight = h.flight;
    pace = h.pace;
    over = elim h.over [ inl open' ↦ inl open' | inr none' ↦ inr (ap (forget id) none') ];
    once = Distinct-settle id st.pending (settled_ids st.settled) there h.once;
  }

  fresh_window-IsSound : (now : ℕ) (st : Peer V) → IsSound st → IsSound (fresh_window now st)
  fresh_window-IsSound now st h =
      by_cases IsSound (window_over now st.window_started_at)
        (λ over.
          IsSound-alike st _ h refl refl refl refl refl
            (IsRegular-fresh now st.window_started_at st.requests_in_window st.windows over h.pace))
        (λ open'. h)

  fresh_window-open :
      (now : ℕ) (st : Peer V) → window_over now (fresh_window now st).window_started_at ≡ false
  fresh_window-open now st =
      by_cases (λ (s : Peer V). window_over now s.window_started_at ≡ false)
        (window_over now st.window_started_at) (λ over. ground arith) (λ open'. open')

  pub admit-IsSound :
      (now : ℕ) (st : Peer V) → IsSound st → IsSound (admit_inbound_request now st).0
  unfolding admit_inbound_request
  admit-IsSound now st h =
      let fresh = fresh_window-IsSound now st h in
      by_cases (λ (r : Peer V × Bool). IsSound r.0)
        (leb max_inbound_requests_per_window (fresh_window now st).requests_in_window)
        (λ full. fresh)
        (λ room. IsSound-alike (fresh_window now st) _ fresh refl refl refl refl refl (
          log_admission-IsRegular now (fresh_window now st).window_started_at
            (fresh_window now st).requests_in_window (fresh_window now st).windows
            (fresh_window-open now st) room fresh.pace))
