-- ===== src/Extension/Loopback.antt =====
-- `isLoopbackHostname` of apps/extension/src/security.ts, against a description of the names of this machine.
use tabgrant.Common.{
  zero, suc, ℕ, ◌-◌, ◌≤◌, ◌≡◌, ◌↔◌, refl, sym, ap, ◌∙◌, arith, String, true, false, List, [], ◌∷◌,
  ◌++◌, length, drop, length-append, drop-length-append, all, leb, ◌==◌, inl, inr, Bool-cases,
  ◌===◌, ===_iff,
}
use tabgrant.Protocol.Platform.{Platform}
use tabgrant.Protocol.Text.{codes, is_digit}
use tabgrant.Extension.Security.{
  split_dots, is_octet, number_of, starts_127, same_codes, ends_with, is_loopback_hostname,
}

-- One to three decimal digits.
pub record IsOctet (l : List ℕ) : Type 0 where
  pub some_digits : 1 ≤ length l
  pub few_digits : length l ≤ 3
  pub digits : all is_digit l ≡ true

abbrev dot : ℕ
dot = b'.'

-- An address of four parts.
abbrev pub address : List ℕ → List ℕ → List ℕ → List ℕ → List ℕ
address a b c d = a ++ (dot ∷ (b ++ (dot ∷ (c ++ (dot ∷ d)))))

abbrev pub loop_part : List ℕ
loop_part = b'1' ∷ b'2' ∷ b'7' ∷ []

-- The names of this machine: `localhost`, a name under it, the IPv6 address ::1, and an IPv4 address whose first
-- part is 127.
pub data IsLoopback (name : String) : Type 0 where
  localhost : name ≡ "localhost" → IsLoopback name
  below_localhost : (front : List ℕ) → codes name ≡ front ++ codes ".localhost" → IsLoopback name
  version_6 : name ≡ "[::1]" → IsLoopback name
  version_4 :
      (b c d : List ℕ)
      → codes name ≡ address loop_part b c d
      → IsOctet b
      → IsOctet c
      → IsOctet d
      → IsLoopback name

same_codes_sound : (xs ys : List ℕ) → same_codes xs ys ≡ true → xs ≡ ys
unfolding same_codes
same_codes_sound [] [] h = refl
same_codes_sound [] (y ∷ ys) h = absurd (cc)
same_codes_sound (x ∷ xs) [] h = absurd (cc)
same_codes_sound (x ∷ xs) (y ∷ ys) h =
    let tails = same_codes_sound xs ys (ground arith) in let heads : x ≡ y = ground arith in cc

same_codes_refl : (xs : List ℕ) → same_codes xs xs ≡ true
unfolding same_codes
same_codes_refl [] = refl
same_codes_refl (x ∷ xs) = let rest = same_codes_refl xs in ground arith

drop_front : (n : ℕ) (xs : List ℕ) → (front : List ℕ) × (xs ≡ front ++ drop n xs)
drop_front zero xs = ([], refl)
drop_front (suc n) [] = ([], refl)
drop_front (suc n) (x ∷ xs) = let (front, e) = drop_front n xs in (x ∷ front, ap (◌∷◌ x) e)

-- `endsWith` finds a last part.
ends_with_iff :
    (text end : String)
    → (ends_with text end ≡ true) ↔ ((front : List ℕ) × (codes text ≡ front ++ codes end))
unfolding ends_with
ends_with_iff text end = (forward, backward)
  where
    forward : ends_with text end ≡ true → (front : List ℕ) × (codes text ≡ front ++ codes end)
    forward h =
        let (front, e) = drop_front (length (codes text) - length (codes end)) (codes text) in
        let same = same_codes_sound _ (codes end) (ground arith) in
        (front, e ∙ ap (λ l. front ++ l) same)

    backward : (front : List ℕ) × (codes text ≡ front ++ codes end) → ends_with text end ≡ true
    backward (front, e) =
        let n = length-append front (codes end) in
        let cut : length (front ++ codes end) - length (codes end) ≡ length front = omega arith in
        let room : leb (length (codes end)) (length (front ++ codes end)) ≡ true = ground arith in
        rw (ends_with, e, cut, room, drop-length-append front (codes end), same_codes_refl) refl

split_dots-some : (xs : List ℕ) → (l : List ℕ) × ((ls : List (List ℕ)) × (split_dots xs ≡ l ∷ ls))
unfolding split_dots
split_dots-some [] = ([], ([], refl))
split_dots-some (x ∷ xs) =
    let (l, (ls, e)) = split_dots-some xs in
    elim (Bool-cases (x == dot)) [
      | inl at ↦ ([], (split_dots xs, rw at refl))
      | inr on ↦ (x ∷ l, (ls, rw (on, e) refl))
    ]

-- The parts with dots in between.
glue : List (List ℕ) → List ℕ
glue [] = []
glue (l ∷ []) = l
glue (l ∷ m ∷ ms) = l ++ dot ∷ glue (m ∷ ms)

glue-cons : (x : ℕ) (l : List ℕ) (ls : List (List ℕ)) → glue ((x ∷ l) ∷ ls) ≡ x ∷ glue (l ∷ ls)
unfolding glue
glue-cons x l [] = refl
glue-cons x l (m ∷ ms) = refl

glue-split_dots : (xs : List ℕ) → glue (split_dots xs) ≡ xs
unfolding glue split_dots
glue-split_dots [] = refl
glue-split_dots (x ∷ xs) =
    let (l, (ls, e)) = split_dots-some xs in
    let rest : glue (l ∷ ls) ≡ xs = ap glue (sym e) ∙ glue-split_dots xs in
    elim (Bool-cases (x == dot)) [
      | inl at ↦ let is : x ≡ dot = ground arith in rw (at, e, rest) (ap (λ y. y ∷ xs) (sym is))
      | inr on ↦ rw (on, e) (glue-cons x l ls ∙ ap (◌∷◌ x) rest)
    ]

split_dots-append :
    (a rest : List ℕ) → all is_digit a ≡ true → split_dots (a ++ dot ∷ rest) ≡ a ∷ split_dots rest
unfolding split_dots
split_dots-append [] rest h = refl
split_dots-append (x ∷ a) rest h =
    let tail = split_dots-append a rest (ground arith) in
    let on : (x == dot) ≡ false = ground arith in rw (on, tail) refl

split_dots-digits : (a : List ℕ) → all is_digit a ≡ true → split_dots a ≡ a ∷ []
unfolding split_dots
split_dots-digits [] h = refl
split_dots-digits (x ∷ a) h =
    let tail = split_dots-digits a (ground arith) in
    let on : (x == dot) ≡ false = ground arith in rw (on, tail) refl

is_octet_iff : (l : List ℕ) → (is_octet l ≡ true) ↔ IsOctet l
is_octet_iff l = (
  (λ h. record { some_digits = ground arith; few_digits = ground arith; digits = ground arith }),
  (λ o. let a = o.some_digits in let b = o.few_digits in let c = o.digits in ground arith),
)

-- Three digits at most make the number 127 in one way.
number_of_127 : (l : List ℕ) → IsOctet l → number_of 0 l ≡ 127 → l ≡ loop_part
number_of_127 [] o e = absurd (omega (arith, o.some_digits))
number_of_127 (x ∷ []) o e = let d = o.digits in absurd (ground arith)
number_of_127 (x ∷ y ∷ []) o e = let d = o.digits in absurd (ground arith)
number_of_127 (x ∷ y ∷ z ∷ []) o e =
    let d = o.digits in
    let h : x ≡ b'1' = ground arith in
    let t : y ≡ b'2' = ground arith in let u : z ≡ b'7' = ground arith in cc
number_of_127 (x ∷ y ∷ z ∷ w ∷ l) o e = absurd (omega (arith, o.few_digits))

-- The four parts of an address.
four_parts :
    (xs : List ℕ) (ls : List (List ℕ))
    → split_dots xs ≡ ls
    → length ls ≡ 4
    → all is_octet ls ≡ true
    → starts_127 ls ≡ true
    → (b : List ℕ) × ((c : List ℕ) × ((d : List ℕ) × ((xs ≡ address loop_part b c d)
            × (IsOctet b × (IsOctet c × IsOctet d)))))
unfolding glue
four_parts xs [] e n o f = absurd (omega arith)
four_parts xs (a ∷ []) e n o f = absurd (omega arith)
four_parts xs (a ∷ b ∷ []) e n o f = absurd (omega arith)
four_parts xs (a ∷ b ∷ c ∷ []) e n o f = absurd (omega arith)
four_parts xs (a ∷ b ∷ c ∷ d ∷ []) e n o f =
    let first = number_of_127 a ((is_octet_iff a).0 (ground arith)) (ground arith) in
    let whole : xs ≡ glue (a ∷ b ∷ c ∷ d ∷ []) = sym (glue-split_dots xs) ∙ ap glue e in
    (
      b,
      (
        c,
        (
          d,
          (
            whole ∙ ap (λ l. address l b c d) first,
            (
              (is_octet_iff b).0 (ground arith),
              ((is_octet_iff c).0 (ground arith), (is_octet_iff d).0 (ground arith)),
            ),
          ),
        ),
      ),
    )
four_parts xs (a ∷ b ∷ c ∷ d ∷ g ∷ ls) e n o f = absurd (omega arith)

split_dots-four :
    (b c d : List ℕ)
    → IsOctet b
    → IsOctet c
    → IsOctet d
    → split_dots (address loop_part b c d) ≡ loop_part ∷ b ∷ c ∷ d ∷ []
split_dots-four b c d hb hc hd =
    let first = split_dots-append loop_part (b ++ (dot ∷ (c ++ (dot ∷ d)))) refl in
    let second = split_dots-append b (c ++ (dot ∷ d)) hb.digits in
    let third = split_dots-append c d hc.digits in
    let last = split_dots-digits d hd.digits in
    first ∙ ap (λ ls. loop_part ∷ ls) (second ∙ ap (λ ls. b ∷ ls) (third ∙ ap (λ ls. c ∷ ls) last))

-- `isLoopbackHostname` holds exactly when the name in lower case is localhost, ends in .localhost, is [::1], or is
-- 127 and three more parts of one to three decimal digits, with dots in between.
pub is_loopback_hostname_iff :
    (p : Platform) (hostname : String)
    → (is_loopback_hostname p hostname ≡ true) ↔ IsLoopback (p.to_lower_case hostname)
unfolding is_loopback_hostname
is_loopback_hostname_iff p hostname = (forward, backward)
  where
    name : String
    name = p.to_lower_case hostname

    parts : List (List ℕ)
    parts = split_dots (codes name)

    forward : is_loopback_hostname p hostname ≡ true → IsLoopback (p.to_lower_case hostname)
    forward h = elim (Bool-cases (name === "localhost")) [
      | inl local ↦ localhost ((===_iff name "localhost").0 local)
      | inr far ↦ elim (Bool-cases (ends_with name ".localhost")) [
        | inl below ↦
            let (front, e) = (ends_with_iff name ".localhost").0 below in below_localhost front e
        | inr aside ↦ elim (Bool-cases (name === "[::1]")) [
          | inl six ↦ version_6 ((===_iff name "[::1]").0 six)
          | inr other ↦
              let h' = rw (far, aside, other) at h in
              let (b, (c, (d, (e, (hb, (hc, hd)))))) =
                four_parts (codes name) parts refl (ground arith) (ground arith) (ground arith) in
              version_4 b c d e hb hc hd
        ]
      ]
    ]

    backward : IsLoopback (p.to_lower_case hostname) → is_loopback_hostname p hostname ≡ true
    backward (localhost e) = let a = (===_iff name "localhost").1 e in ground arith
    backward (below_localhost front e) =
        let a = (ends_with_iff name ".localhost").1 (front, e) in ground arith
    backward (version_6 e) = let a = (===_iff name "[::1]").1 e in ground arith
    backward (version_4 b c d e hb hc hd) =
        let all_parts = split_dots-four b c d hb hc hd in
        let x = (is_octet_iff b).1 hb in
        let y = (is_octet_iff c).1 hc in
        let z = (is_octet_iff d).1 hd in
        let split : parts ≡ loop_part ∷ b ∷ c ∷ d ∷ [] = ap split_dots e ∙ all_parts in
        rw split (ground arith)
