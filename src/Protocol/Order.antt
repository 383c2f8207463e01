-- ===== src/Protocol/Order.antt =====
-- `[...texts].sort()` and `join`: the default order compares UTF-16 code units.
use Prim.Native.String
use tabgrant.Common.{
  ℕ, ◌+◌, ◌-◌, ◌/◌, ◌%◌, String, Bool, true, false, List, [], ◌∷◌, ltb, ◌==◌, if◌then◌else◌,
}
use tabgrant.Protocol.Text.{codes}

abbrev utf16 : List ℕ → List ℕ
utf16 [] = []
utf16 (c ∷ cs) =
    let rest = utf16 cs in
    if ltb c 0x10000
    then c ∷ rest
    else (0xD800 + (c - 0x10000) / 1024) ∷ (0xDC00 + (c - 0x10000) % 1024) ∷ rest

units_le : List ℕ → List ℕ → Bool
units_le [] ys = true
units_le (x ∷ xs) [] = false
units_le (x ∷ xs) (y ∷ ys) = let later = units_le xs ys in if x == y then later else ltb x y

unfoldable pub text_le : String → String → Bool
unfolding units_le
text_le a b = units_le (utf16 (codes a)) (utf16 (codes b))

insert_text : String → List String → List String
insert_text a [] = a ∷ []
insert_text a (b ∷ bs) =
    let later = insert_text a bs in if text_le a b then a ∷ b ∷ bs else b ∷ later

unfoldable pub sort_texts : List String → List String
unfolding insert_text text_le
sort_texts [] = []
sort_texts (a ∷ as') = insert_text a (sort_texts as')

-- `texts.join(",")`
unfoldable pub join_comma : List String → String
join_comma [] = ""
join_comma (a ∷ []) = a
join_comma (a ∷ b ∷ rest) = String.◌++◌ a (String.◌++◌ "," (join_comma (b ∷ rest)))
