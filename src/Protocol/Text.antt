-- ===== src/Protocol/Text.antt =====
-- Texts as the schemas of packages/protocol measure them: `length` counts UTF-16 code units, and
-- the regular expressions are read over code points.
use Prim.Native.Char.{code}
use tabgrant.Common.{
  ℕ, ◌+◌, String, Bool, true, false, ◌&&◌, ◌||◌, List, [], ◌∷◌, all, leb, ltb, ◌==◌, if◌then◌else◌,
  length,
}

abbrev pub codes : String → List ℕ
codes String.[] = []
codes (String.◌∷◌ c s) = code c ∷ codes s

abbrev units : List ℕ → ℕ
units [] = 0
units (c ∷ cs) = (if ltb c 0x10000 then 1 else 2) + units cs

-- `value.length`
unfoldable pub text_length : String → ℕ
text_length s = units (codes s)

-- `z.string().min(low).max(high)`
unfoldable pub length_within : ℕ → ℕ → String → Bool
unfolding text_length
length_within low high s = leb low (text_length s) && leb (text_length s) high

abbrev pub is_digit : ℕ → Bool
is_digit c = leb b'0' c && leb c b'9'

abbrev pub is_upper : ℕ → Bool
is_upper c = leb b'A' c && leb c b'Z'

abbrev pub is_lower : ℕ → Bool
is_lower c = leb b'a' c && leb c b'z'

abbrev pub is_alnum : ℕ → Bool
is_alnum c = is_digit c || is_upper c || is_lower c

abbrev pub is_name_char : ℕ → Bool
is_name_char c = is_alnum c || c == b'.' || c == b'_' || c == b':' || c == b'-'

abbrev pub is_hex : ℕ → Bool
is_hex c = is_digit c || (leb b'a' c && leb c b'f')

prefix : List ℕ → List ℕ → Bool
prefix [] ys = true
prefix (x ∷ xs) [] = false
prefix (x ∷ xs) (y ∷ ys) = x == y && prefix xs ys

within : List ℕ → List ℕ → Bool
within xs [] = prefix xs []
within xs (y ∷ ys) = prefix xs (y ∷ ys) || within xs ys

-- `text.includes(piece)`
unfoldable pub includes_text : String → String → Bool
unfolding prefix within
includes_text text piece = within (codes piece) (codes text)

abbrev starts_alnum : List ℕ → Bool
starts_alnum [] = false
starts_alnum (c ∷ cs) = is_alnum c && all is_name_char cs

-- `/^[A-Za-z0-9][A-Za-z0-9._:-]*$/` with 1 to 128 characters.
unfoldable pub identifier_schema : String → Bool
unfolding length_within
identifier_schema s = length_within 1 128 s && starts_alnum (codes s)

-- `/^[a-f0-9]{64}$/`
unfoldable pub digest_schema : String → Bool
digest_schema s = length (codes s) == 64 && all is_hex (codes s)

unfoldable pub signature_schema : String → Bool
unfolding length_within
signature_schema s = length_within 16 4096 s

-- `/^[A-Z]{3}$/`
unfoldable pub currency_schema : String → Bool
currency_schema s = length (codes s) == 3 && all is_upper (codes s)

-- `z.number().int().nonnegative().safe()`
unfoldable pub timestamp_schema : ℕ → Bool
timestamp_schema n = leb n 9007199254740991
