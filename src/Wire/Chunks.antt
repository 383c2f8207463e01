-- ===== src/Wire/Chunks.antt =====
-- A stream that arrives in chunks: `push` is called for each, and its values are passed on.
use tabgrant.Common.{
  ℕ, ◌≡◌, refl, sym, ap, ◌∙◌, List, [], ◌∷◌, ◌++◌, append-nil, append_assoc, Option, none, some,
  inl, inr, All,
}
use tabgrant.Wire.Stream.{
  StreamError, Next, short, Drained, done, failed, IsFraming, drain, drain-append, drain-failed,
  drain-settled, drain-short, prepend_all-done, Drained-cases,
}

abbrev pub concat : List (List ℕ) → List ℕ
concat [] = []
concat (c ∷ cs) = c ++ concat cs

-- What has been passed on, the buffer, and the error that ended the stream.
pub record Fed (V : Type 0) : Type 0 where
  pub values : List V
  pub buffer : List ℕ
  pub error : Option StreamError

abbrev pub pass_on : {V : Type 0} → List V → Fed V → Fed V
pass_on vs f = record f { values = vs ++ f.values }

-- The data events of a stream; nothing is read after an error.
unfoldable pub feed : {V : Type 0} → (List ℕ → List ℕ → Drained V) → List ℕ → List (List ℕ) → Fed V
feed push b [] = record { values = []; buffer = b; error = none }
feed push b (c ∷ cs) = elim (push b c) [
  | failed e rest ↦ record { values = []; buffer = rest; error = some e }
  | done vs rest ↦ pass_on vs (feed push rest cs)
]

module _ {V : Type 0} (next : List ℕ → Next V) (framing : IsFraming next)
    (push : List ℕ → List ℕ → Drained V) (Fits End : List ℕ → Type 0)
    -- `push` runs the loop, if neither the chunk nor the rest of the stream exceeds a limit.
    (accepts : (b c d : List ℕ) (vs ws : List V) (r rest : List ℕ)
      → next b ≡ short
      → Fits c
      → End rest
      → drain next (b ++ c) ≡ done vs r
      → drain next (r ++ d) ≡ done ws rest
      → push b c ≡ done vs r) where
  -- However the stream is cut into chunks, what is passed on is what the loop reads from the whole.
  pub feed-drain :
      (b : List ℕ) (cs : List (List ℕ)) (vs : List V) (rest : List ℕ)
      → next b ≡ short
      → All Fits cs
      → End rest
      → drain next (b ++ concat cs) ≡ done vs rest
      → feed push b cs ≡ record { values = vs; buffer = rest; error = none }
  unfolding feed
  feed-drain b [] vs rest s fits end e =
      let whole : done [] b ≡ done vs rest =
        sym (drain-short next framing b s) ∙ ap (drain next) (sym (append-nil b)) ∙ e in
      let read : [] ≡ vs = cc in let is : b ≡ rest = cc in rw (← read, ← is) refl
  feed-drain b (c ∷ cs) vs rest s fits end e =
      let split : drain next ((b ++ c) ++ concat cs) ≡ done vs rest =
        ap (drain next) (append_assoc b c (concat cs)) ∙ e in
      elim (Drained-cases (drain next (b ++ c))) [
        | inr (x, r, bad) ↦
            let failing = drain-failed next framing (b ++ c) (concat cs) x r bad in absurd (cc)
        | inl (ms, r, good) ↦
            let (ws, later, same) =
              prepend_all-done ms (drain next (r ++ concat cs)) vs rest
                (sym (drain-append next framing (b ++ c) (concat cs) ms r good) ∙ split) in
            let taken = accepts b c (concat cs) ms ws r rest s fits.0 end good later in
            rw (feed, taken, same)
              (ap (pass_on ms) (
                feed-drain r cs ws rest (drain-settled next framing (b ++ c) ms r good) fits.1 end
                  later))
      ]
