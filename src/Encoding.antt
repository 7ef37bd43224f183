-- ===== src/Encoding.antt =====
-- utils/encoding.py (src/utils): Base64url. A `str` is the list of its code points, and `bytes` the
-- list of its numbers. `base64.urlsafe_b64encode` and the lenient `base64.urlsafe_b64decode` of the
-- standard library are written out, since the functions below rest on what they do.
pub mod Alphabet
pub mod RoundTrip
mod Tests
use kemtls.Common.{
  ℕ, zero, suc, ◌+◌, ◌-◌, ◌*◌, ◌/◌, ◌%◌, Bool, true, false, ◌&&◌, ◌||◌, Option, none, some, List,
  [], ◌∷◌, ◌++◌, ltb, leb, ◌==◌, if◌then◌else◌, length, Bytes,
}
use kemtls.Common.Error.{Error, value_error, Result, ok, raised, ◌>>=◌, ◌>>◌, raise_if}

-- The digit of a six-bit value: A-Z a-z 0-9 - _
unfoldable pub digit : ℕ → ℕ
digit v =
    if ltb v 26
    then v + 65
    else if ltb v 52
    then v + 71
    else if ltb v 62
    then v - 4
    else if v == 62
    then b'-'
    else b'_'

-- The value of a digit, and none for any other character.
unfoldable pub digit_value : ℕ → Option ℕ
digit_value c =
    if leb 65 c && leb c 90
    then some (c - 65)
    else if leb 97 c && leb c 122
    then some (c - 71)
    else if leb 48 c && leb c 57
    then some (c + 4)
    else if c == b'-'
    then some 62
    else if c == b'_'
    then some 63
    else none

-- `base64.urlsafe_b64encode(data).rstrip(b'=')`: groups of three bytes, the last one shorter.
unfoldable pub base64url_encode : Bytes → List ℕ
base64url_encode [] = []
base64url_encode (a ∷ []) = digit (a / 4) ∷ digit (a % 4 * 16) ∷ []
base64url_encode (a ∷ b ∷ []) =
    digit (a / 4) ∷ digit (a % 4 * 16 + b / 16) ∷ digit (b % 16 * 4) ∷ []
base64url_encode (a ∷ b ∷ c ∷ rest) =
    digit (a / 4)
    ∷ digit (a % 4 * 16 + b / 16)
    ∷ digit (b % 16 * 4 + c / 64)
    ∷ digit (c % 64)
    ∷ base64url_encode rest

unfoldable pub is_base64url_char : ℕ → Bool
is_base64url_char c =
    leb 65 c && leb c 90 || leb 97 c && leb c 122 || leb 48 c && leb c 57 || c == b'_' || c == b'-'

-- `re.match(r'^[A-Za-z0-9_-]*$', s)`: a `$` also matches before a newline at the end.
unfoldable pub matches_pattern : List ℕ → Bool
unfolding is_base64url_char
matches_pattern [] = true
matches_pattern (c ∷ []) = is_base64url_char c || c == 10
matches_pattern (c ∷ d ∷ s) = is_base64url_char c && matches_pattern (d ∷ s)

-- The state of `binascii.a2b_base64`, not strict: how many digits of a group of four are read, the
-- bits left over from them, and the padding read since the last digit.
pub record Quad : Type 0 where
  pub digits : ℕ
  pub left : ℕ
  pub pads : ℕ

abbrev pub start : Quad
start = record { digits = 0; left = 0; pads = 0 }

-- The bytes that the next digit completes, and the state after it.
unfoldable pub next_digit : Quad → ℕ → Bytes × Quad
next_digit q v =
    if q.digits == 0
    then ([], record { digits = 1; left = v; pads = 0 })
    else if q.digits == 1
    then ((q.left * 4 + v / 16) ∷ [], record { digits = 2; left = v % 16; pads = 0 })
    else if q.digits == 2
    then ((q.left * 16 + v / 4) ∷ [], record { digits = 3; left = v % 4; pads = 0 })
    else ((q.left * 64 + v) ∷ [], start)

-- The end of the input inside a group.
unfoldable pub finish : Quad → Bytes → Result Bytes
finish q out = if q.digits == 0 then ok out else raised (value_error "Invalid Base64url encoding")

-- `=` ends the input when it completes a group; other characters are skipped.
unfoldable pub b64_loop : List ℕ → Quad → Bytes → Result Bytes
unfolding finish next_digit digit_value
b64_loop [] q out = finish q out
b64_loop (c ∷ s) q out = elim (digit_value c) [
  | some v ↦ b64_loop s (next_digit q v).1 (out ++ (next_digit q v).0)
  | none ↦
      let padded = b64_loop s (record q { pads = q.pads + 1 }) out in
      let skipped = b64_loop s q out in
      if c == b'='
      then (if leb 2 q.digits
          then (if leb 4 (q.digits + q.pads + 1) then ok out else padded)
          else skipped)
      else skipped
]

unfoldable pub padding : ℕ → List ℕ
padding zero = []
padding (suc n) = b'=' ∷ padding n

unfoldable pub base64url_decode : List ℕ → Result Bytes
unfolding matches_pattern b64_loop padding
base64url_decode encoded =
    if matches_pattern encoded
    then b64_loop (encoded ++ padding ((4 - length encoded % 4) % 4)) start []
    else raised (value_error "Invalid Base64url string: contains characters outside [A-Za-z0-9_-]")
