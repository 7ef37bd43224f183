-- ===== src/Crypto/Aead/Nonce.antt =====
-- Record nonces: defined for every 64-bit sequence number, and no two alike under one IV.
use kemtls.Common.{
  ℕ, zero, suc, ◌-◌, ◌^◌, ◌<◌, ◌≡◌, refl, ap, ◌∙◌, sym, some, arith, [], ◌∷◌, ◌++◌, length,
  length-append, drop, All-append, Bytes, IsByte, IsBytes, to_bytes, from_bytes, length-to_bytes,
  to_bytes-IsBytes, from_bytes-to_bytes,
}
use kemtls.Common.Error.{ok}
use kemtls.Common.Xor.{bit_xor_cancel}
use kemtls.Crypto.Aead.{nonce_size, zeros, xor_bytes, padded_seq, xor_iv_with_seq}

length-zeros : (n : ℕ) → length (zeros n) ≡ n
unfolding zeros
length-zeros zero = refl
length-zeros (suc n) = ap suc (length-zeros n)

pub zeros-IsBytes : (n : ℕ) → IsBytes (zeros n)
unfolding zeros
zeros-IsBytes zero = tt
zeros-IsBytes (suc n) = (omega arith, zeros-IsBytes n)

length-padded_seq : (seq : ℕ) → length (padded_seq seq) ≡ 12
unfolding padded_seq
length-padded_seq seq = omega (
  arith,
  length-append (zeros (nonce_size - length (to_bytes 8 seq))) (to_bytes 8 seq),
  length-zeros (nonce_size - length (to_bytes 8 seq)),
  length-to_bytes 8 seq,
)

padded_seq-IsBytes : (seq : ℕ) → IsBytes (padded_seq seq)
unfolding padded_seq
padded_seq-IsBytes seq =
    All-append IsByte (zeros _) (to_bytes 8 seq) (zeros-IsBytes _) (to_bytes-IsBytes 8 seq)

padded_seq_alt : (seq : ℕ) → padded_seq seq ≡ zeros 4 ++ to_bytes 8 seq
unfolding padded_seq
padded_seq_alt seq =
    let four : nonce_size - length (to_bytes 8 seq) ≡ 4 = omega (arith, length-to_bytes 8 seq) in
    ap (λ (n : ℕ). zeros n ++ to_bytes 8 seq) four

-- The sequence number can be read off its padding.
from_bytes-padded_seq : (s : ℕ) → s < 2 ^ 64 → from_bytes (drop 4 (padded_seq s)) ≡ s
from_bytes-padded_seq s h =
    ap (λ p. from_bytes (drop 4 p)) (padded_seq_alt s) ∙ (unfold zeros in from_bytes-to_bytes 8 s h)

length-xor_bytes : (xs ys : Bytes) → length xs ≡ length ys → length (xor_bytes xs ys) ≡ length xs
unfolding xor_bytes
length-xor_bytes [] ys h = refl
length-xor_bytes (x ∷ xs) [] h = absurd (omega arith)
length-xor_bytes (x ∷ xs) (y ∷ ys) h = omega (arith, length-xor_bytes xs ys)

xor_bytes_cancel :
    (iv xs : Bytes)
    → IsBytes iv
    → IsBytes xs
    → length iv ≡ length xs
    → xor_bytes iv (xor_bytes iv xs) ≡ xs
unfolding xor_bytes
xor_bytes_cancel [] [] hi hx h = refl
xor_bytes_cancel [] (x ∷ xs) hi hx h = absurd (omega arith)
xor_bytes_cancel (i ∷ iv) [] hi hx h = absurd (omega arith)
xor_bytes_cancel (i ∷ iv) (x ∷ xs) (hi, his) (hx, hxs) h =
    cc (bit_xor_cancel i x hi hx, xor_bytes_cancel iv xs his hxs (omega arith))

-- What a nonce is, and when there is one.
pub xor_iv_with_seq_inv :
    (iv : Bytes) (s : ℕ) {n : Bytes}
    → xor_iv_with_seq (some iv) s ≡ ok n
    → (length iv ≡ 12) × (s < 2 ^ 64) × (n ≡ xor_bytes iv (padded_seq s))
unfolding xor_iv_with_seq
xor_iv_with_seq_inv iv s h = ground arith

-- Every IV of twelve bytes and every 64-bit sequence number give a nonce of twelve bytes.
pub xor_iv_with_seq_total :
    (iv : Bytes) (s : ℕ)
    → length iv ≡ 12
    → s < 2 ^ 64
    → (n : Bytes) × (xor_iv_with_seq (some iv) s ≡ ok n) × (length n ≡ 12)
unfolding xor_iv_with_seq
xor_iv_with_seq_total iv s hi hs = (
  xor_bytes iv (padded_seq s),
  ground arith,
  omega (arith, length-xor_bytes iv (padded_seq s), length-padded_seq s),
)

-- Under one IV of bytes, two sequence numbers that give the same nonce are the same number.
pub xor_iv_with_seq-injective :
    (iv : Bytes) (s t : ℕ) {n : Bytes}
    → IsBytes iv
    → xor_iv_with_seq (some iv) s ≡ ok n
    → xor_iv_with_seq (some iv) t ≡ ok n
    → s ≡ t
xor_iv_with_seq-injective iv s t hi es et =
    let (long, small_s, is_s) = xor_iv_with_seq_inv iv s es in
    let (_, small_t, is_t) = xor_iv_with_seq_inv iv t et in
    sym (from_bytes-padded_seq s small_s)
    ∙ ap (λ p. from_bytes (drop 4 p))
        (sym (
            xor_bytes_cancel iv (padded_seq s) hi (padded_seq-IsBytes s)
              (omega (arith, length-padded_seq s)))
          ∙ ap (xor_bytes iv) (sym is_s ∙ is_t)
          ∙ xor_bytes_cancel iv (padded_seq t) hi (padded_seq-IsBytes t)
              (omega (arith, length-padded_seq t)))
    ∙ from_bytes-padded_seq t small_t
