-- ===== src/Wire/Once.antt =====
-- Lists of identifiers without repetition, and the changes that `RpcPeer` of apps/broker/src/wire.ts makes.
use tabgrant.Common.{
  suc, ◌≡◌, refl, ap, String, true, false, ◌||◌, List, [], ◌∷◌, ◌++◌, length, inl, inr, arith,
  ◌===◌, ===_iff, ===_sym, Bool-cases,
}
use tabgrant.Wire.Peer.{forget, forget_one, waits}

abbrev pub Distinct : List String → Type 0
Distinct [] = Unit
Distinct (x ∷ xs) = (waits x xs ≡ false) × Distinct xs

waits-append :
    (id : String) (xs ys : List String) → waits id (xs ++ ys) ≡ (waits id xs || waits id ys)
waits-append id [] ys = refl
waits-append id (x ∷ xs) ys = ground (arith, waits-append id xs ys)

forget-absent : (id : String) (xs : List String) → waits id xs ≡ false → forget id xs ≡ xs
forget-absent id [] h = refl
forget-absent id (x ∷ xs) h =
    let other : (x === id) ≡ false = ground arith in
    rw other (ap (◌∷◌ x) (forget-absent id xs (ground arith)))

-- A forgotten identifier is looked for in vain, and others are found as before.
waits-forget :
    (x id : String) (xs : List String) → waits x xs ≡ false → waits x (forget id xs) ≡ false
waits-forget x id [] h = refl
waits-forget x id (y ∷ xs) h = elim (Bool-cases (y === id)) [
  | inl hit ↦ rw hit (waits-forget x id xs (ground arith))
  | inr miss ↦ rw miss (let later = waits-forget x id xs (ground arith) in ground arith)
]

pub Distinct-insert :
    (id : String) (xs ys : List String)
    → waits id (xs ++ ys) ≡ false
    → Distinct (xs ++ ys)
    → Distinct (xs ++ id ∷ ys)
Distinct-insert id [] ys h d = (h, d)
Distinct-insert id (x ∷ xs) ys h d =
    let other : (id === x) ≡ false = ===_sym x id (ground arith) in
    let before = waits-append x xs ys in
    let after = waits-append x xs (id ∷ ys) in
    (ground (arith, d.0), Distinct-insert id xs ys (ground arith) d.1)

pub Distinct-settle :
    (id : String) (xs ys : List String)
    → waits id xs ≡ true
    → Distinct (xs ++ ys)
    → Distinct (forget id xs ++ id ∷ ys)
Distinct-settle id [] ys h d = absurd (cc)
Distinct-settle id (x ∷ xs) ys h d = elim (Bool-cases (x === id)) [
  | inl hit ↦
      let is : x ≡ id = (===_iff x id).0 hit in
      let gone : waits id (xs ++ ys) ≡ false = rw is at d.0 in
      let apart = waits-append id xs ys in
      rw (hit, forget-absent id xs (ground arith)) (Distinct-insert id xs ys gone d.1)
  | inr miss ↦
      let other : (id === x) ≡ false = ===_sym x id miss in
      let before = waits-append x xs ys in
      let after = waits-append x (forget id xs) (id ∷ ys) in
      let kept = waits-forget x id xs (ground (arith, d.0)) in
      rw miss (ground (arith, d.0), Distinct-settle id xs ys (ground arith) d.1)
]

pub length-forget_one :
    (id : String) (xs : List String)
    → waits id xs ≡ true
    → suc (length (forget_one id xs)) ≡ length xs
length-forget_one id [] h = absurd (cc)
length-forget_one id (x ∷ xs) h = elim (Bool-cases (x === id)) [
  | inl hit ↦ rw hit refl
  | inr miss ↦ rw miss (ap suc (length-forget_one id xs (ground arith)))
]
