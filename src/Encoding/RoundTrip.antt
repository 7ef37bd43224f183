-- ===== src/Encoding/RoundTrip.antt =====
-- Decoding what was encoded.
use kemtls.Common.{
  ℕ, ◌+◌, ◌-◌, ◌*◌, ◌/◌, ◌%◌, ◌<◌, ◌≡◌, ap, ◌∙◌, arith, List, [], ◌∷◌, ◌++◌, append-nil,
  append_assoc, length, All, Bytes, IsByte, IsBytes,
}
use kemtls.Common.Error.{ok}
use kemtls.Encoding.{
  digit, base64url_encode, base64url_decode, Quad, start, next_digit, b64_loop, padding,
}
use kemtls.Encoding.Alphabet.{
  digit_value-digit, digit-is_base64url_char, IsDigit, matches_pattern_of_All,
}

pub base64url_encode-IsDigit : (d : Bytes) → IsBytes d → All IsDigit (base64url_encode d)
unfolding base64url_encode
base64url_encode-IsDigit [] h = tt
base64url_encode-IsDigit (a ∷ []) h =
    (digit-is_base64url_char _ (omega arith), (digit-is_base64url_char _ (omega arith), tt))
base64url_encode-IsDigit (a ∷ b ∷ []) h = (
  digit-is_base64url_char _ (omega arith),
  (digit-is_base64url_char _ (omega arith), (digit-is_base64url_char _ (omega arith), tt)),
)
base64url_encode-IsDigit (a ∷ b ∷ c ∷ rest) (ha, (hb, (hc, h))) = (
  digit-is_base64url_char _ (omega arith),
  (
    digit-is_base64url_char _ (omega arith),
    (
      digit-is_base64url_char _ (omega arith),
      (digit-is_base64url_char _ (omega arith), base64url_encode-IsDigit rest h),
    ),
  ),
)

b64_loop-digit :
    (v : ℕ) (s : List ℕ) (q : Quad) (out : Bytes)
    → v < 64
    → b64_loop (digit v ∷ s) q out ≡ b64_loop s (next_digit q v).1 (out ++ (next_digit q v).0)
unfolding b64_loop
b64_loop-digit v s q out h = rw (digit_value-digit v h, b64_loop)

-- What the shifts of the encoder split, those of the decoder put together.
first_byte : (a b : ℕ) → b < 256 → a / 4 * 4 + (a % 4 * 16 + b / 16) / 16 ≡ a
first_byte a b h = omega arith

second_byte :
    (a b c : ℕ)
    → b < 256
    → c < 256
    → (a % 4 * 16 + b / 16) % 16 * 16 + (b % 16 * 4 + c / 64) / 4 ≡ b
second_byte a b c hb hc = omega arith

third_byte : (b c : ℕ) → c < 256 → (b % 16 * 4 + c / 64) % 4 * 64 + c % 64 ≡ c
third_byte b c h = omega arith

last_of_one : (a : ℕ) → a / 4 * 4 + a % 4 * 16 / 16 ≡ a
last_of_one a = omega arith

last_of_two : (a b : ℕ) → b < 256 → (a % 4 * 16 + b / 16) % 16 * 16 + b % 16 * 4 / 4 ≡ b
last_of_two a b h = omega arith

-- Four digits give three bytes.
group :
    (a b c : ℕ) (s : List ℕ) (out : Bytes)
    → IsByte a
    → IsByte b
    → IsByte c
    → b64_loop
        (digit (a / 4)
          ∷ digit (a % 4 * 16 + b / 16)
          ∷ digit (b % 16 * 4 + c / 64)
          ∷ digit (c % 64)
          ∷ s)
        start
        out
      ≡ b64_loop s start (out ++ a ∷ b ∷ c ∷ [])
unfolding next_digit
group a b c s out ha hb hc =
    b64_loop-digit (a / 4) _ start out (omega arith)
    ∙ b64_loop-digit (a % 4 * 16 + b / 16) _ _ _ (omega arith)
    ∙ b64_loop-digit (b % 16 * 4 + c / 64) _ _ _ (omega arith)
    ∙ b64_loop-digit (c % 64) _ _ _ (omega arith)
    ∙ simp (append-nil, append_assoc, first_byte a b hb, second_byte a b c hb hc, third_byte b c hc)

abbrev missing : List ℕ → ℕ
missing s = (4 - length s % 4) % 4

-- One byte left over, and two.
one_left :
    (a : ℕ) (out : Bytes)
    → IsByte a
    → b64_loop (digit (a / 4) ∷ digit (a % 4 * 16) ∷ padding 2) start out ≡ ok (out ++ a ∷ [])
unfolding padding next_digit
one_left a out ha =
    b64_loop-digit (a / 4) _ start out (omega arith)
    ∙ b64_loop-digit (a % 4 * 16) _ _ _ (omega arith)
    ∙ unfold b64_loop in simp (append-nil, last_of_one a)

two_left :
    (a b : ℕ) (out : Bytes)
    → IsByte a
    → IsByte b
    → b64_loop
        (digit (a / 4) ∷ digit (a % 4 * 16 + b / 16) ∷ digit (b % 16 * 4) ∷ padding 1)
        start
        out
      ≡ ok (out ++ a ∷ b ∷ [])
unfolding padding next_digit
two_left a b out ha hb =
    b64_loop-digit (a / 4) _ start out (omega arith)
    ∙ b64_loop-digit (a % 4 * 16 + b / 16) _ _ _ (omega arith)
    ∙ b64_loop-digit (b % 16 * 4) _ _ _ (omega arith)
    ∙ unfold b64_loop in simp (append-nil, append_assoc, first_byte a b hb, last_of_two a b hb)

b64_loop-base64url_encode :
    (d out : Bytes)
    → IsBytes d
    → b64_loop (base64url_encode d ++ padding (missing (base64url_encode d))) start out
      ≡ ok (out ++ d)
unfolding base64url_encode
b64_loop-base64url_encode [] out h = unfold padding b64_loop in rw append-nil
b64_loop-base64url_encode (a ∷ []) out (ha, _) = one_left a out ha
b64_loop-base64url_encode (a ∷ b ∷ []) out (ha, (hb, _)) = two_left a b out ha hb
b64_loop-base64url_encode (a ∷ b ∷ c ∷ rest) out (ha, (hb, (hc, h))) =
    let s = base64url_encode rest in
    let same : (4 - (length s + 4) % 4) % 4 ≡ missing s = omega arith in
    group a b c _ out ha hb hc
    ∙ ap (λ (k : ℕ). b64_loop (s ++ padding k) start (out ++ a ∷ b ∷ c ∷ [])) (omega arith)
    ∙ b64_loop-base64url_encode rest (out ++ a ∷ b ∷ c ∷ []) h
    ∙ ap ok (append_assoc out (a ∷ b ∷ c ∷ []) rest)

-- Decoding gives back the bytes that were encoded.
pub base64url_decode-base64url_encode :
    (d : Bytes) → IsBytes d → base64url_decode (base64url_encode d) ≡ ok d
unfolding base64url_decode
base64url_decode-base64url_encode d h =
    rw (matches_pattern_of_All (base64url_encode d) (base64url_encode-IsDigit d h))
      (b64_loop-base64url_encode d [] h)
