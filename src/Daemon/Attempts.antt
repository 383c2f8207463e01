-- ===== src/Daemon/Attempts.antt =====
-- apps/broker/src/daemon.ts: `reservePairingAttempt` and `reserveGlobalPairingAttempt`, which differ in
-- their list, window and limit. The times of the attempts stand oldest first.
use tabgrant.Common.{
  ℕ, ◌+◌, ◌≤◌, ◌≡◌, refl, Bool, true, false, List, [], ◌∷◌, ◌++◌, inl, inr, arith, leb, ltb,
  if◌then◌else◌, length, length-append, All, count_if, Bool-cases,
}

-- The loop of `attempts.shift()`: `t <= now - window` is `t + window <= now`.
unfoldable pub drop_old : ℕ → ℕ → List ℕ → List ℕ
drop_old window now [] = []
drop_old window now (t ∷ ts) =
    let rest = drop_old window now ts in if leb (t + window) now then rest else t ∷ ts

-- The attempts that are left, and whether this one is let through.
unfoldable pub reserve : ℕ → ℕ → ℕ → List ℕ → List ℕ × Bool
unfolding drop_old
reserve window limit now attempts =
    let kept = drop_old window now attempts in
    if leb limit (length kept) then (kept, false) else (kept ++ now ∷ [], true)

-- The times of a sequence of attempts at which one is let through.
abbrev let_through : Bool → ℕ → List ℕ → List ℕ
let_through true t rest = t ∷ rest
let_through false t rest = rest

unfoldable pub reserved : ℕ → ℕ → List ℕ → List ℕ → List ℕ
unfolding reserve
reserved window limit [] attempts = []
reserved window limit (t ∷ ts) attempts =
    let (kept, ok) = reserve window limit t attempts in
    let_through ok t (reserved window limit ts kept)

-- How many of the times are less than a window ago.
abbrev pub recent : ℕ → ℕ → List ℕ → ℕ
recent window now = count_if (λ t. ltb now (t + window))

recent-append :
    (window now : ℕ) (xs ys : List ℕ)
    → recent window now (xs ++ ys) ≡ recent window now xs + recent window now ys
recent-append window now [] ys = omega arith
recent-append window now (x ∷ xs) ys = ground (arith, recent-append window now xs ys)

recent-length : (window now : ℕ) (xs : List ℕ) → recent window now xs ≤ length xs
recent-length window now [] = omega arith
recent-length window now (x ∷ xs) = ground (arith, recent-length window now xs)

-- What is dropped is no longer recent, then or later.
recent-drop_old :
    (window t now : ℕ) (xs : List ℕ)
    → t ≤ now
    → recent window now (drop_old window t xs) ≡ recent window now xs
unfolding drop_old
recent-drop_old window t now [] later = refl
recent-drop_old window t now (x ∷ xs) later = elim (Bool-cases (leb (x + window) t)) [
  | inl old ↦ rw old (ground (arith, recent-drop_old window t now xs later))
  | inr young ↦ rw young refl
]

length-drop_old : (window now : ℕ) (xs : List ℕ) → length (drop_old window now xs) ≤ length xs
unfolding drop_old
length-drop_old window now [] = omega arith
length-drop_old window now (x ∷ xs) = ground (arith, length-drop_old window now xs)

pub reserve-IsBounded :
    (window limit now : ℕ) (attempts : List ℕ)
    → length attempts ≤ limit
    → length (reserve window limit now attempts).0 ≤ limit
unfolding reserve
reserve-IsBounded window limit now attempts few =
    let kept = drop_old window now attempts in
    let fewer = length-drop_old window now attempts in
    elim (Bool-cases (leb limit (length kept))) [
      | inl full ↦ rw (reserve, full) (omega (arith, fewer, few))
      | inr room ↦ rw (reserve, room, length-append kept (now ∷ [])) (ground arith)
    ]

recent-reserved :
    (window limit now : ℕ) (ts attempts : List ℕ)
    → All (λ t. t ≤ now) ts
    → recent window now attempts ≤ limit
    → recent window now attempts + recent window now (reserved window limit ts attempts) ≤ limit
unfolding reserved
recent-reserved window limit now [] attempts past few = omega (arith, few)
recent-reserved window limit now (t ∷ ts) attempts past few =
    let kept = drop_old window t attempts in
    let same = recent-drop_old window t now attempts past.0 in
    elim (Bool-cases (leb limit (length kept))) [
      | inl full ↦
          let later = recent-reserved window limit now ts kept past.1 (omega (arith, same, few)) in
          rw (reserve, full) (omega (arith, later, same))
      | inr room ↦
          let all = recent-append window now kept (t ∷ []) in
          let bound = recent-length window now (kept ++ t ∷ []) in
          let size = length-append kept (t ∷ []) in
          let later = recent-reserved window limit now ts (kept ++ t ∷ []) past.1 (ground arith) in
          rw (reserve, room) (omega (arith, later, same, all))
    ]

-- Of any sequence of attempts that starts with no attempt, at most the limit are let through in the window
-- before any time that is not before one of them.
pub reserved-IsPaced :
    (window limit now : ℕ) (ts : List ℕ)
    → All (λ t. t ≤ now) ts
    → recent window now (reserved window limit ts []) ≤ limit
reserved-IsPaced window limit now ts past =
    let few = recent-reserved window limit now ts [] past (omega arith) in omega (arith, few)

drop_old-all :
    (window now : ℕ) (xs : List ℕ) → All (λ t. t + window ≤ now) xs → drop_old window now xs ≡ []
unfolding drop_old
drop_old-all window now [] old = refl
drop_old-all window now (x ∷ xs) old =
    let gone : leb (x + window) now ≡ true = let o = old.0 in ground arith in
    rw gone (drop_old-all window now xs old.1)

-- With a positive limit, an attempt is let through when all the earlier ones are a window ago, and it is the
-- only one that counts then.
pub reserve-free :
    (window limit now : ℕ) (attempts : List ℕ)
    → 1 ≤ limit
    → All (λ t. t + window ≤ now) attempts
    → reserve window limit now attempts ≡ (now ∷ [], true)
unfolding reserve
reserve-free window limit now attempts some' old =
    let room : leb limit 0 ≡ false = ground arith in
    rw (drop_old-all window now attempts old, room) refl
