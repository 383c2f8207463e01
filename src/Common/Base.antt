-- ===== src/Common/Base.antt =====
-- Boolean tests, the conditional, and case lemmas.
use Prim.Native.Nat.{ℕ, ◌≤◌, ◌<◌, compare, Ordering}
use Prim.Native.String.{String}
use text.Mathlib.Text.{◌==◌ as str_eq}
use text.Mathlib.TextEquality.{eq_iff}
use mathlib.Core.Path.{◌≡◌, refl, sym}
use mathlib.Core.Logic.{◌↔◌, ◌⊎◌, inl, inr}
use mathlib.Core.Bool.{Bool, true, false, ◌&&◌, ◌||◌}
use mathlib.Core.Option.{Option, none, some}
use native.Mathlib.Omega.{arith}

abbrev pub ltb : ℕ → ℕ → Bool
ltb a b = elim (compare a b) [ Ordering.lt ↦ true | _ ↦ false ]

abbrev pub leb : ℕ → ℕ → Bool
leb a b = elim (compare a b) [ Ordering.gt ↦ false | _ ↦ true ]

infix 50 ◌==◌
abbrev pub ◌==◌ : ℕ → ℕ → Bool
a == b = elim (compare a b) [ Ordering.eq ↦ true | _ ↦ false ]

-- `===` on texts.
infix 50 ◌===◌
abbrev pub ◌===◌ : String → String → Bool
a === b = str_eq a b

pub ===_iff : (a b : String) → ((a === b) ≡ true) ↔ (a ≡ b)
===_iff = eq_iff

pub ===_refl : (a : String) → (a === a) ≡ true
===_refl a = (eq_iff a a).1 refl

infix 1 if◌then◌else◌
abbrev pub if◌then◌else◌ {ℓ} : {A : Type ℓ} → Bool → A → A → A
if true then x else y = x
if false then x else y = y

pub Bool-cases : (b : Bool) → (b ≡ true) ⊎ (b ≡ false)
Bool-cases true = inl refl
Bool-cases false = inr refl

-- A predicate of a conditional, from its two branches.
pub by_cases {ℓ} :
    {A : Type ℓ} (P : A → Type 0) (b : Bool) {x y : A}
    → (b ≡ true → P x)
    → (b ≡ false → P y)
    → P (if b then x else y)
by_cases P true = λ yes no. yes refl
by_cases P false = λ yes no. no refl

pub Option-cases {ℓ} : {A : Type ℓ} (o : Option A) → (o ≡ none) ⊎ ((a : A) × (o ≡ some a))
Option-cases none = inl refl
Option-cases (some a) = inr (a, refl)

-- The order of two different texts does not matter.
pub ===_sym : (a b : String) → (a === b) ≡ false → (b === a) ≡ false
===_sym a b h = elim (Bool-cases (b === a)) [
  | inr other ↦ other
  | inl same ↦ let is : b ≡ a = (===_iff b a).0 same in absurd (cc ((===_iff a b).1 (sym is)))
]

-- `=== undefined` and `!== undefined`.
abbrev pub is_none {ℓ} : {A : Type ℓ} → Option A → Bool
is_none none = true
is_none (some a) = false

abbrev pub is_some {ℓ} : {A : Type ℓ} → Option A → Bool
is_some none = false
is_some (some a) = true

-- `value ?? fallback`.
abbrev pub or_else {ℓ} : {A : Type ℓ} → Option A → A → A
or_else none d = d
or_else (some a) d = a

pub &&-split : (a b : Bool) → (a && b) ≡ true → (a ≡ true) × (b ≡ true)
&&-split a b h = ground arith

pub &&-join : (a b : Bool) → a ≡ true → b ≡ true → (a && b) ≡ true
&&-join a b h k = ground arith

pub ||-split : (a b : Bool) → (a || b) ≡ false → (a ≡ false) × (b ≡ false)
||-split a b h = ground arith

pub ||-join : (a b : Bool) → a ≡ false → b ≡ false → (a || b) ≡ false
||-join a b h k = ground arith

pub ltb→lt : (a b : ℕ) → ltb a b ≡ true → a < b
ltb→lt a b h = ground arith

pub lt→ltb : (a b : ℕ) → a < b → ltb a b ≡ true
lt→ltb a b h = ground arith

pub leb→le : (a b : ℕ) → leb a b ≡ true → a ≤ b
leb→le a b h = ground arith
