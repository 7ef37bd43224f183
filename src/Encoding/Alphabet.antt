-- ===== src/Encoding/Alphabet.antt =====
-- The digits of Base64url, one by one.
use kemtls.Common.{ℕ, ◌<◌, ◌≡◌, refl, true, some, arith, List, [], ◌∷◌, All}
use kemtls.Encoding.{digit, digit_value, is_base64url_char, matches_pattern}

pub digit_value-digit : (v : ℕ) → v < 64 → digit_value (digit v) ≡ some v
unfolding digit_value digit
digit_value-digit v h = ground arith

pub digit-is_base64url_char : (v : ℕ) → v < 64 → is_base64url_char (digit v) ≡ true
unfolding is_base64url_char digit
digit-is_base64url_char v h = ground arith

abbrev pub IsDigit : ℕ → Type 0
IsDigit c = is_base64url_char c ≡ true

pub matches_pattern_of_All : (s : List ℕ) → All IsDigit s → matches_pattern s ≡ true
unfolding matches_pattern
matches_pattern_of_All [] h = refl
matches_pattern_of_All (c ∷ []) (p, h) = ground arith
matches_pattern_of_All (c ∷ d ∷ s) (p, h) = ground (arith, matches_pattern_of_All (d ∷ s) h)
