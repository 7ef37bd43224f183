-- ===== src/Crypto/KeySchedule/Expand.antt =====
-- HKDF-Expand against its definition in RFC 5869, section 2.3.
use kemtls.Common.{
  ℕ, zero, suc, ◌+◌, ◌*◌, ◌/◌, ◌≤◌, ◌<◌, ◌≡◌, refl, ap, inl, inr, arith, false, [], ◌∷◌, ◌++◌, leb,
  ltb, Bool-cases, length, length-append, length-take, take, Bytes,
}
use kemtls.Common.Error.{value_error, ok, raised}
use kemtls.Crypto.Primitives.{Hash, HashLaws}
use kemtls.Crypto.KeySchedule.{hkdf_loop, hkdf_expand}

module _ (h : Hash) (prk info : Bytes) where
  -- T(i), with T(0) empty.
  unfoldable pub block_of : ℕ → Bytes
  block_of zero = []
  block_of (suc i) = h.hmac prk (block_of i ++ info ++ suc i ∷ [])

  -- T(1) | T(2) | … | T(n)
  unfoldable pub blocks : ℕ → Bytes
  blocks zero = []
  blocks (suc i) = blocks i ++ block_of (suc i)

  -- The output keying material of a length: its prefix of ceil(length / 32) blocks.
  unfoldable pub rfc_expand : ℕ → Bytes
  rfc_expand len = take len (blocks ((len + 31) / 32))

  length-blocks : HashLaws h → (i : ℕ) → length (blocks i) ≡ 32 * i
  unfolding blocks block_of
  length-blocks laws zero = refl
  length-blocks laws (suc i) = omega (
    arith,
    length-append (blocks i) (block_of (suc i)),
    length-blocks laws i,
    laws.length-hmac prk (block_of i ++ info ++ suc i ∷ []),
  )

  hkdf_loop-eq :
      HashLaws h
      → (n i counter len : ℕ) → len ≤ 8160
      → i ≤ (len + 31) / 32
      → (len + 31) / 32 < n + i
      → counter ≡ suc i
      → hkdf_loop h n prk info len (block_of i) counter (blocks i) ≡ ok (rfc_expand len)
  unfolding hkdf_loop block_of blocks
  hkdf_loop-eq laws zero i counter len bound below fuel same = absurd (omega arith)
  hkdf_loop-eq laws (suc n) i counter len bound below fuel same =
      elim (Bool-cases (ltb (length (blocks i)) len)) [
        | inl more ↦
            let size = length-blocks laws i in
            let counted : leb 256 (suc i) ≡ false = ground arith in
            let next : i < (len + 31) / 32 = ground arith in
            rw (same, more, counted)
              (hkdf_loop-eq laws n (suc i) (suc i + 1) len bound next (omega arith) (omega arith))
        | inr done ↦
            let size = length-blocks laws i in
            let last : i ≡ (len + 31) / 32 = ground arith in
            rw done (unfold rfc_expand in ap (λ (k : ℕ). ok (take len (blocks k))) last)
      ]

  -- For every length up to 255 blocks, `hkdf_expand` returns the keying material of RFC 5869, and
  -- it has exactly that length, if HMAC returns 32 bytes.
  pub hkdf_expand-eq-rfc_expand :
      HashLaws h
      → (len : ℕ) → len ≤ 8160
      → (hkdf_expand h prk info len ≡ ok (rfc_expand len)) × (length (rfc_expand len) ≡ len)
  unfolding hkdf_expand
  hkdf_expand-eq-rfc_expand laws len bound =
      let fits : ltb 8160 len ≡ false = ground arith in
      (
        rw fits (
            unfold block_of blocks in
            hkdf_loop-eq laws 256 0 1 len bound (omega arith) (omega arith) refl),
        unfold rfc_expand in
            omega (
              arith,
              length-take len (blocks ((len + 31) / 32)),
              length-blocks laws ((len + 31) / 32),
            ),
      )

  -- A length above 255 blocks is refused.
  pub hkdf_expand_too_long :
      (len : ℕ)
      → 8160 < len
      → hkdf_expand h prk info len ≡ raised (value_error "length exceeds HKDF expand limit")
  unfolding hkdf_expand
  hkdf_expand_too_long len above = ground arith
