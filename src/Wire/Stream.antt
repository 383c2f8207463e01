-- ===== src/Wire/Stream.antt =====
-- What the two decoders of apps/broker/src/native-framing.ts and apps/broker/src/wire.ts share: a buffer
-- from whose front whole messages are taken. A byte is a number, and JSON values are of any type.
use tabgrant.Common.{
  ℕ, zero, suc, ◌≤◌, ◌<◌, ◌≡◌, ◌⊎◌, inl, inr, refl, sym, ap, ◌∙◌, List, [], ◌∷◌, ◌++◌, Option, none,
  some, length, arith,
}

-- `BrokerRpcError("MESSAGE_TOO_LARGE")`, or the `SyntaxError` of `JSON.parse`.
pub data StreamError : Type 0 where
  message_too_large malformed_json : StreamError

-- What stands at the front of a buffer: no whole message yet, a message that is refused, or one that is
-- taken off. A blank line is taken off and gives no value.
pub data Next (V : Type 0) : Type 0 where
  short : Next V
  refused : StreamError → List ℕ → Next V
  frame : Option V → List ℕ → Next V

-- What one run of the decoder's loop returns, with the buffer that it leaves: an exception drops the
-- values that were read before it.
pub data Drained (V : Type 0) : Type 0 where
  done : List V → List ℕ → Drained V
  failed : StreamError → List ℕ → Drained V

abbrev pub read_value : {V : Type 0} → Option V → List V → List V
read_value none vs = vs
read_value (some v) vs = v ∷ vs

abbrev pub prepend : {V : Type 0} → Option V → Drained V → Drained V
prepend o (done vs rest) = done (read_value o vs) rest
prepend o (failed e rest) = failed e rest

-- Whole values before the others.
abbrev pub prepend_all : {V : Type 0} → List V → Drained V → Drained V
prepend_all vs (done ws rest) = done (vs ++ ws) rest
prepend_all vs (failed e rest) = failed e rest

prepend-prepend_all :
    {V : Type 0} (o : Option V) (vs : List V) (d : Drained V)
    → prepend o (prepend_all vs d) ≡ prepend_all (read_value o vs) d
prepend-prepend_all none vs (done ws rest) = refl
prepend-prepend_all (some v) vs (done ws rest) = refl
prepend-prepend_all o vs (failed e rest) = refl

prepend_all-none : {V : Type 0} (d : Drained V) → prepend_all [] d ≡ d
prepend_all-none (done ws rest) = refl
prepend_all-none (failed e rest) = refl

pub prepend-done :
    {V : Type 0} (o : Option V) (d : Drained V) (vs : List V) (rest : List ℕ)
    → prepend o d ≡ done vs rest
    → (ws : List V) × (d ≡ done ws rest) × (vs ≡ read_value o ws)
prepend-done o (done ws left) vs rest e = (ws, cc, cc)
prepend-done o (failed x left) vs rest e = absurd (cc)

pub prepend-failed :
    {V : Type 0} (o : Option V) (d : Drained V) (x : StreamError) (rest : List ℕ)
    → prepend o d ≡ failed x rest
    → d ≡ failed x rest
prepend-failed o (done ws left) x rest e = absurd (cc)
prepend-failed o (failed y left) x rest e = cc

pub prepend_all-done :
    {V : Type 0} (ms : List V) (d : Drained V) (vs : List V) (rest : List ℕ)
    → prepend_all ms d ≡ done vs rest
    → (ws : List V) × (d ≡ done ws rest) × (vs ≡ ms ++ ws)
prepend_all-done ms (done ws left) vs rest e = (ws, cc, cc)
prepend_all-done ms (failed x left) vs rest e = absurd (cc)

pub Drained-cases :
    {V : Type 0} (d : Drained V)
    → ((vs : List V) × (rest : List ℕ) × (d ≡ done vs rest))
      ⊎ ((x : StreamError) × (rest : List ℕ) × (d ≡ failed x rest))
Drained-cases (done vs rest) = inl (vs, rest, refl)
Drained-cases (failed x rest) = inr (x, rest, refl)

-- What the loop relies on: reading the front of a buffer does not depend on what comes behind it, and
-- takes something off.
pub record IsFraming {V : Type 0} (next : List ℕ → Next V) : Type 0 where
  pub empty : next [] ≡ short
  pub extends :
      (b c rest : List ℕ) (o : Option V)
      → next b ≡ frame o rest
      → next (b ++ c) ≡ frame o (rest ++ c)
  pub refuses :
      (b c rest : List ℕ) (e : StreamError)
      → next b ≡ refused e rest
      → next (b ++ c) ≡ refused e (rest ++ c)
  pub shrinks : (b rest : List ℕ) (o : Option V) → next b ≡ frame o rest → length rest < length b

pub Next-cases :
    {V : Type 0} (n : Next V)
    → (n ≡ short)
      ⊎ (((e : StreamError) × (rest : List ℕ) × (n ≡ refused e rest))
          ⊎ ((o : Option V) × (rest : List ℕ) × (n ≡ frame o rest)))
Next-cases short = inl refl
Next-cases (refused e rest) = inr (inl (e, rest, refl))
Next-cases (frame o rest) = inr (inr (o, rest, refl))

module _ {V : Type 0} (next : List ℕ → Next V) where
  -- The loop, on fuel: `drain` gives it enough.
  unfoldable pub drain_within : ℕ → List ℕ → Drained V
  drain_within zero b = done [] b
  drain_within (suc n) b = elim (next b) [
    | short ↦ done [] b
    | refused e rest ↦ failed e rest
    | frame o rest ↦ prepend o (drain_within n rest)
  ]

  -- A message takes at least a byte off the buffer.
  unfoldable pub drain : List ℕ → Drained V
  unfolding drain_within
  drain b = drain_within (length b) b

module _ {V : Type 0} (next : List ℕ → Next V) (framing : IsFraming next) where
  drain_within-agree :
      (n m : ℕ) (b : List ℕ)
      → length b ≤ n
      → length b ≤ m
      → drain_within next n b ≡ drain_within next m b
  unfolding drain_within
  drain_within-agree zero zero b h k = refl
  drain_within-agree zero (suc m) [] h k = rw (drain_within, framing.empty) refl
  drain_within-agree (suc n) zero [] h k = rw (drain_within, framing.empty) refl
  drain_within-agree zero (suc m) (x ∷ xs) h k = absurd (omega arith)
  drain_within-agree (suc n) zero (x ∷ xs) h k = absurd (omega arith)
  drain_within-agree (suc n) (suc m) b h k = elim (Next-cases (next b)) [
    | inl none' ↦ rw (drain_within, none') refl
    | inr (inl (e, rest, bad)) ↦ rw (drain_within, bad) refl
    | inr (inr (o, rest, good)) ↦
        let less = framing.shrinks b rest o good in
        rw (drain_within, good)
          (ap (prepend o) (drain_within-agree n m rest (omega arith) (omega arith)))
  ]

  -- Fuel beyond the length of the buffer changes nothing.
  drain_within-enough : (n : ℕ) (b : List ℕ) → length b ≤ n → drain_within next n b ≡ drain next b
  unfolding drain
  drain_within-enough n b h = drain_within-agree n (length b) b h (omega arith)

  -- The loop's equations, without fuel.
  pub drain-short : (b : List ℕ) → next b ≡ short → drain next b ≡ done [] b
  unfolding drain drain_within
  drain-short [] e = refl
  drain-short (x ∷ xs) e = rw (drain_within, e) refl

  pub drain-frame :
      (b rest : List ℕ) (o : Option V)
      → next b ≡ frame o rest
      → drain next b ≡ prepend o (drain next rest)
  unfolding drain drain_within
  drain-frame [] rest o e = absurd (cc (framing.empty))
  drain-frame (x ∷ xs) rest o e =
      let less = framing.shrinks (x ∷ xs) rest o e in
      rw (drain_within, e) (ap (prepend o) (drain_within-enough (length xs) rest (omega arith)))

  pub drain-refused :
      (b rest : List ℕ) (x : StreamError) → next b ≡ refused x rest → drain next b ≡ failed x rest
  unfolding drain drain_within
  drain-refused [] rest x e = absurd (cc (framing.empty))
  drain-refused (y ∷ ys) rest x e = rw (drain_within, e) refl

  -- After a run that ends well no whole message is left.
  drain_within-settled :
      (n : ℕ) (b : List ℕ) (vs : List V) (rest : List ℕ)
      → length b ≤ n
      → drain_within next n b ≡ done vs rest
      → next rest ≡ short
  unfolding drain_within
  drain_within-settled zero [] vs rest h e = let is : [] ≡ rest = cc in rw (← is) framing.empty
  drain_within-settled zero (x ∷ xs) vs rest h e = absurd (omega arith)
  drain_within-settled (suc n) b vs rest h e = elim (Next-cases (next b)) [
    | inl none' ↦ let is : b ≡ rest = cc (rw (drain_within, none') at e) in rw (← is) none'
    | inr (inl (x, left, bad)) ↦ absurd (cc (rw (drain_within, bad) at e))
    | inr (inr (o, left, good)) ↦
        let less = framing.shrinks b left o good in
        let (ws, e', same) =
          prepend-done o (drain_within next n left) vs rest (rw (drain_within, good) at e) in
        drain_within-settled n left ws rest (omega arith) e'
  ]

  -- Bytes that come later are read behind the messages that are whole already.
  drain_within-append :
      (n : ℕ) (b c : List ℕ) (vs : List V) (rest : List ℕ)
      → length b ≤ n
      → drain_within next n b ≡ done vs rest
      → drain next (b ++ c) ≡ prepend_all vs (drain next (rest ++ c))
  unfolding drain_within
  drain_within-append zero b c vs rest h e =
      let read : [] ≡ vs = cc in
      let is : b ≡ rest = cc in rw (← read, ← is) (sym (prepend_all-none _))
  drain_within-append (suc n) b c vs rest h e = elim (Next-cases (next b)) [
    | inl none' ↦
        let e' = rw (drain_within, none') at e in
        let read : [] ≡ vs = cc in
        let is : b ≡ rest = cc in rw (← read, ← is) (sym (prepend_all-none _))
    | inr (inl (x, left, bad)) ↦ absurd (cc (rw (drain_within, bad) at e))
    | inr (inr (o, left, good)) ↦
        let less = framing.shrinks b left o good in
        let (ws, e', same) =
          prepend-done o (drain_within next n left) vs rest (rw (drain_within, good) at e) in
        drain-frame (b ++ c) (left ++ c) o (framing.extends b c left o good)
        ∙ ap (prepend o) (drain_within-append n left c ws rest (omega arith) e')
        ∙ prepend-prepend_all o ws (drain next (rest ++ c))
        ∙ ap (λ x. prepend_all x (drain next (rest ++ c))) (sym same)
  ]

  pub drain-settled :
      (b : List ℕ) (vs : List V) (rest : List ℕ) → drain next b ≡ done vs rest → next rest ≡ short
  unfolding drain
  drain-settled b vs rest e = drain_within-settled (length b) b vs rest (omega arith) e

  pub drain-append :
      (b c : List ℕ) (vs : List V) (rest : List ℕ)
      → drain next b ≡ done vs rest
      → drain next (b ++ c) ≡ prepend_all vs (drain next (rest ++ c))
  unfolding drain
  drain-append b c vs rest e = drain_within-append (length b) b c vs rest (omega arith) e

  -- A buffer that fails fails with whatever comes behind it.
  drain_within-failed :
      (n : ℕ) (b c : List ℕ) (x : StreamError) (rest : List ℕ)
      → length b ≤ n
      → drain_within next n b ≡ failed x rest
      → drain next (b ++ c) ≡ failed x (rest ++ c)
  unfolding drain_within
  drain_within-failed zero b c x rest h e = absurd (cc)
  drain_within-failed (suc n) b c x rest h e = elim (Next-cases (next b)) [
    | inl none' ↦ absurd (cc (rw (drain_within, none') at e))
    | inr (inl (y, left, bad)) ↦
        let e' = rw (drain_within, bad) at e in
        let same : y ≡ x = cc in
        let is : left ≡ rest = cc in
        rw (← same, ← is) (drain-refused (b ++ c) (left ++ c) y (framing.refuses b c left y bad))
    | inr (inr (o, left, good)) ↦
        let less = framing.shrinks b left o good in
        drain-frame (b ++ c) (left ++ c) o (framing.extends b c left o good)
        ∙ ap (prepend o) (
            drain_within-failed n left c x rest (omega arith)
              (prepend-failed o (drain_within next n left) x rest (rw (drain_within, good) at e)))
  ]

  pub drain-failed :
      (b c : List ℕ) (x : StreamError) (rest : List ℕ)
      → drain next b ≡ failed x rest
      → drain next (b ++ c) ≡ failed x (rest ++ c)
  unfolding drain
  drain-failed b c x rest e = drain_within-failed (length b) b c x rest (omega arith) e
