-- ===== src/Common/Lists.antt =====
-- Lists measured by native numbers, with the array methods that the code uses.
use Prim.Native.Nat.{ℕ, zero, suc, ◌+◌, ◌≤◌}
use mathlib.Core.Path.{◌≡◌, refl, ap, subst}
use mathlib.Core.Bool.{Bool, true, false, ◌&&◌, ◌||◌}
use mathlib.Core.Option.{Option, none, some}
use mathlib.Core.List.{List, [], ◌∷◌, ◌++◌, map}
use mathlib.Core.Logic.{◌↔◌, ◌⊎◌, inl, inr}
use native.Mathlib.Omega.{arith}
use tabgrant.Common.Base.{if◌then◌else◌, Bool-cases}

module _ {ℓ} {A : Type ℓ} where
  abbrev pub length : List A → ℕ
  length [] = 0
  length (x ∷ xs) = suc (length xs)

  -- `xs.some(p)`
  abbrev pub any : (A → Bool) → List A → Bool
  any p [] = false
  any p (x ∷ xs) = p x || any p xs

  -- `xs.every(p)`
  abbrev pub all : (A → Bool) → List A → Bool
  all p [] = true
  all p (x ∷ xs) = p x && all p xs

  -- `xs.filter(p)`
  abbrev pub keep : (A → Bool) → List A → List A
  keep p [] = []
  keep p (x ∷ xs) = let rest = keep p xs in if p x then x ∷ rest else rest

  abbrev pub take : ℕ → List A → List A
  take zero xs = []
  take (suc n) [] = []
  take (suc n) (x ∷ xs) = x ∷ take n xs

  abbrev pub drop : ℕ → List A → List A
  drop zero xs = xs
  drop (suc n) [] = []
  drop (suc n) (x ∷ xs) = drop n xs

  -- A front that is whole does not depend on what comes behind it.
  pub take-append : (n : ℕ) (xs ys : List A) → n ≤ length xs → take n (xs ++ ys) ≡ take n xs
  take-append zero xs ys h = refl
  take-append (suc n) [] ys h = absurd (omega arith)
  take-append (suc n) (x ∷ xs) ys h = ap (◌∷◌ x) (take-append n xs ys (omega arith))

  pub drop-append : (n : ℕ) (xs ys : List A) → n ≤ length xs → drop n (xs ++ ys) ≡ drop n xs ++ ys
  drop-append zero xs ys h = refl
  drop-append (suc n) [] ys h = absurd (omega arith)
  drop-append (suc n) (x ∷ xs) ys h = drop-append n xs ys (omega arith)

  pub length-drop : (n : ℕ) (xs : List A) → length (drop n xs) ≤ length xs
  length-drop zero xs = omega arith
  length-drop (suc n) [] = omega arith
  length-drop (suc n) (x ∷ xs) = omega (arith, length-drop n xs)

  pub take-length-append : (xs ys : List A) → take (length xs) (xs ++ ys) ≡ xs
  take-length-append [] ys = refl
  take-length-append (x ∷ xs) ys = ap (◌∷◌ x) (take-length-append xs ys)

  pub drop-length-append : (xs ys : List A) → drop (length xs) (xs ++ ys) ≡ ys
  drop-length-append [] ys = refl
  drop-length-append (x ∷ xs) ys = drop-length-append xs ys

  pub length-append : (xs ys : List A) → length (xs ++ ys) ≡ length xs + length ys
  length-append [] ys = omega arith
  length-append (x ∷ xs) ys = omega (arith, length-append xs ys)

  pub length-keep : (p : A → Bool) (xs : List A) → length (keep p xs) ≤ length xs
  length-keep p [] = omega arith
  length-keep p (x ∷ xs) = ground (arith, length-keep p xs)

pub length-map {ℓ κ} :
    {A : Type ℓ} {B : Type κ} (f : A → B) (xs : List A) → length (map f xs) ≡ length xs
length-map f [] = refl
length-map f (x ∷ xs) = ap suc (length-map f xs)

module _ {ℓ κ} {A : Type ℓ} (P : A → Type κ) where
  -- Every element satisfies `P`.
  abbrev pub All : List A → Type κ
  All [] = Unit
  All (x ∷ xs) = P x × All xs

  pub All-append : (xs ys : List A) → All xs → All ys → All (xs ++ ys)
  All-append [] ys h k = k
  All-append (x ∷ xs) ys h k = (h.0, All-append xs ys h.1 k)

  pub All-keep : (p : A → Bool) (xs : List A) → All xs → All (keep p xs)
  All-keep p [] h = tt
  All-keep p (x ∷ xs) h = ground (arith, All-keep p xs h.1)

  pub All-map : (f : A → A) → ((a : A) → P a → P (f a)) → (xs : List A) → All xs → All (map f xs)
  All-map f step [] h = tt
  All-map f step (x ∷ xs) h = (step x h.0, All-map f step xs h.1)

-- Some element satisfies `P`, with the element kept.
abbrev pub Exists {ℓ} : {A : Type ℓ} → (A → Type 0) → List A → Type 0
Exists P [] = ⊥
Exists P (x ∷ xs) = P x ⊎ Exists P xs

module _ {ℓ} {A : Type ℓ} {P : A → Type 0} where
  pub All-change : {Q : A → Type 0} → ((a : A) → P a → Q a) → (xs : List A) → All P xs → All Q xs
  All-change step [] h = tt
  All-change step (x ∷ xs) h = (step x h.0, All-change step xs h.1)

module _ {A : Type 0} (P : A → Type 0) where
  pub All-Exists : (a : A) (xs : List A) → All P xs → Exists (λ x. x ≡ a) xs → P a
  All-Exists a [] h e = absurd e
  All-Exists a (x ∷ xs) h (inl is) = subst P is h.0
  All-Exists a (x ∷ xs) h (inr later) = All-Exists a xs h.1 later

module _ {ℓ} {A : Type ℓ} {P : A → Type 0} (p : A → Bool)
    (reads : (a : A) → (p a ≡ true) ↔ P a) where
  pub any_iff : (xs : List A) → (any p xs ≡ true) ↔ Exists P xs
  any_iff [] = ((λ e. cc), (λ h. absurd h))
  any_iff (x ∷ xs) = ground (arith, reads x, any_iff xs)

  pub all_iff : (xs : List A) → (all p xs ≡ true) ↔ All P xs
  all_iff [] = ((λ e. tt), (λ t. refl))
  all_iff (x ∷ xs) = ground (arith, reads x, all_iff xs)

module _ {ℓ} {A : Type ℓ} {P : A → Type 0} (p : A → Bool)
    (reads : (a : A) → (p a ≡ false) ↔ P a) where
  -- No element passes the test exactly when every element has the property.
  pub any-false_iff : (xs : List A) → (any p xs ≡ false) ↔ All P xs
  any-false_iff [] = ((λ e. tt), (λ t. refl))
  any-false_iff (x ∷ xs) = ground (arith, reads x, any-false_iff xs)

module _ {ℓ} {A : Type ℓ} where
  -- The first element that passes, as `map.get(key)` over the entries of a map.
  abbrev pub find : (A → Bool) → List A → Option A
  find p [] = none
  find p (x ∷ xs) = let later = find p xs in if p x then some x else later

  -- The first element that passes is changed in place, as the value of a map's key.
  abbrev pub update : (A → Bool) → (A → A) → List A → List A
  update p f [] = []
  update p f (x ∷ xs) = let later = update p f xs in if p x then f x ∷ xs else x ∷ later

  -- `map.delete(key)` over the entries of a map.
  abbrev pub discard : (A → Bool) → List A → List A
  discard p [] = []
  discard p (x ∷ xs) = let later = discard p xs in if p x then later else x ∷ later

  pub length-update : (p : A → Bool) (f : A → A) (xs : List A) → length (update p f xs) ≡ length xs
  length-update p f [] = refl
  length-update p f (x ∷ xs) = ground (arith, length-update p f xs)

  pub length-discard : (p : A → Bool) (xs : List A) → length (discard p xs) ≤ length xs
  length-discard p [] = omega arith
  length-discard p (x ∷ xs) = ground (arith, length-discard p xs)

  pub discard-none : (xs : List A) → discard (λ _. false) xs ≡ xs
  discard-none [] = refl
  discard-none (x ∷ xs) = ap (◌∷◌ x) (discard-none xs)

  -- What is found passes the test.
  pub find-passes : (p : A → Bool) (xs : List A) (a : A) → find p xs ≡ some a → p a ≡ true
  find-passes p [] a e = cc
  find-passes p (x ∷ xs) a e = ground (arith, find-passes p xs a)

module _ {ℓ κ} {A : Type ℓ} (P : A → Type κ) where
  pub All-update :
      (p : A → Bool) (f : A → A)
      → ((a : A) → p a ≡ true → P a → P (f a))
      → (xs : List A) → All P xs
      → All P (update p f xs)
  All-update p f step [] h = tt
  All-update p f step (x ∷ xs) h = elim (Bool-cases (p x)) [
    | inl hit ↦ rw hit (step x hit h.0, h.1)
    | inr miss ↦ rw miss (h.0, All-update p f step xs h.1)
  ]

  pub All-discard : (p : A → Bool) (xs : List A) → All P xs → All P (discard p xs)
  All-discard p [] h = tt
  All-discard p (x ∷ xs) h = elim (Bool-cases (p x)) [
    | inl hit ↦ rw hit (All-discard p xs h.1)
    | inr miss ↦ rw miss (h.0, All-discard p xs h.1)
  ]

  -- What is found has every property of the entries.
  pub find-All : (p : A → Bool) (xs : List A) (a : A) → find p xs ≡ some a → All P xs → P a
  find-All p [] a e h = absurd (cc)
  find-All p (x ∷ xs) a e h = elim (Bool-cases (p x)) [
    | inl hit ↦ let same : x ≡ a = ground arith in rw same at h.0
    | inr miss ↦ find-All p xs a (ground arith) h.1
  ]

module _ {ℓ} {A : Type ℓ} where
  -- How many elements pass the test.
  abbrev pub count_if : (A → Bool) → List A → ℕ
  count_if p [] = 0
  count_if p (x ∷ xs) = (if p x then 1 else 0) + count_if p xs

  pub count_if-append :
      (p : A → Bool) (xs ys : List A) → count_if p (xs ++ ys) ≡ count_if p xs + count_if p ys
  count_if-append p [] ys = omega arith
  count_if-append p (x ∷ xs) ys = omega (arith, count_if-append p xs ys)

  pub count_if-discard : (p q : A → Bool) (xs : List A) → count_if p (discard q xs) ≤ count_if p xs
  count_if-discard p q [] = omega arith
  count_if-discard p q (x ∷ xs) = ground (arith, count_if-discard p q xs)

module _ {ℓ} {A : Type ℓ} (p : A → Bool) (f : A → A)
    (calm : (a : A) → p (f a) ≡ true → p a ≡ true) where
  -- A change that makes no element pass lets no more elements pass.
  pub count_if-update : (q : A → Bool) (xs : List A) → count_if p (update q f xs) ≤ count_if p xs
  count_if-update q [] = omega arith
  count_if-update q (x ∷ xs) = ground (arith, calm x, count_if-update q xs)

  pub count_if-map : (xs : List A) → count_if p (map f xs) ≤ count_if p xs
  count_if-map [] = omega arith
  count_if-map (x ∷ xs) = ground (arith, calm x, count_if-map xs)

module _ {ℓ} {A : Type ℓ} (p : A → Bool) (f : A → A) where
  pub find-update_self :
      ((a : A) → p (f a) ≡ p a)
      → (xs : List A) (a : A) → find p xs ≡ some a
      → find p (update p f xs) ≡ some (f a)
  find-update_self same [] a e = absurd (cc)
  find-update_self same (x ∷ xs) a e = elim (Bool-cases (p x)) [
    | inl hit ↦ let is : x ≡ a = ground arith in rw (hit, same, hit) (ap (λ y. some (f y)) is)
    | inr miss ↦ rw (miss, miss) (find-update_self same xs a (ground arith))
  ]

  pub find-update_other :
      (q : A → Bool)
      → ((a : A) → p (f a) ≡ p a)
      → ((a : A) → q a ≡ true → p a ≡ false)
      → (xs : List A) → find p (update q f xs) ≡ find p xs
  find-update_other q same apart [] = refl
  find-update_other q same apart (x ∷ xs) = elim (Bool-cases (q x)) [
    | inl hit ↦ let miss = apart x hit in rw (hit, same, miss) refl
    | inr on ↦ elim (Bool-cases (p x)) [
      | inl here ↦ rw (on, here) refl
      | inr miss ↦ rw (on, miss) (find-update_other q same apart xs)
    ]
  ]

  -- Only the entry that the map holds is changed.
  pub All-update_found {κ} :
      (P : A → Type κ) (xs : List A) (a : A)
      → find p xs ≡ some a
      → P (f a)
      → All P xs
      → All P (update p f xs)
  All-update_found P [] a e k h = h
  All-update_found P (x ∷ xs) a e k h = elim (Bool-cases (p x)) [
    | inl hit ↦ let is : a ≡ x = ground arith in rw hit (rw is at k, h.1)
    | inr miss ↦ rw miss (h.0, All-update_found P xs a (ground arith) k h.1)
  ]

  pub All-update_each_found {κ} :
      (P : A → Type κ) (xs : List A)
      → ((a : A) → find p xs ≡ some a → P (f a))
      → All P xs
      → All P (update p f xs)
  All-update_each_found P [] k h = h
  All-update_each_found P (x ∷ xs) k h = elim (Bool-cases (p x)) [
    | inl hit ↦ rw hit (k x (rw hit refl), h.1)
    | inr miss ↦ rw miss (h.0, All-update_each_found P xs (λ a e. k a (rw miss e)) h.1)
  ]

module _ {ℓ} {A : Type ℓ} (p : A → Bool) (f g : A → A) where
  -- A second change of the same entry.
  pub update-update :
      ((a : A) → p (f a) ≡ p a)
      → (xs : List A) → update p g (update p f xs) ≡ update p (λ a. g (f a)) xs
  update-update same [] = refl
  update-update same (x ∷ xs) = elim (Bool-cases (p x)) [
    | inl hit ↦ rw (hit, same, hit) refl
    | inr miss ↦ rw (miss, miss) (ap (λ r. x ∷ r) (update-update same xs))
  ]
