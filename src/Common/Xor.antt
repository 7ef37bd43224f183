-- ===== src/Common/Xor.antt =====
-- Exclusive or on bytes, which the libraries know nothing of at variables.
use kemtls.Common.Words.{IsByte}
use kemtls.Common.Tests.{◌==◌, ==_iff}
use Prim.Native.Nat.{ℕ, zero, suc, ◌<◌, bit_xor}
use mathlib.Core.Path.{◌≡◌, refl}
use mathlib.Core.Bool.{Bool, true, ◌&&◌}
use native.Mathlib.Omega.{arith}

-- A test that passes at each number under a bound.
passes_under : (ℕ → Bool) → ℕ → Bool
passes_under test zero = true
passes_under test (suc bound) = passes_under test bound && test bound

passes_under_at :
    (test : ℕ → Bool) {v : ℕ} (bound : ℕ)
    → v < bound
    → passes_under test bound ≡ true
    → test v ≡ true
unfolding passes_under
passes_under_at test zero small passed = absurd (omega arith)
passes_under_at test {v = v} (suc bound) small passed =
    ground (arith, passes_under_at test {v = v} bound)

cancels : ℕ → ℕ → Bool
cancels mask v = bit_xor mask (bit_xor mask v) == v

mask_cancels : ℕ → Bool
unfolding passes_under cancels
mask_cancels mask = passes_under (cancels mask) 256

every_mask_cancels : passes_under mask_cancels 256 ≡ true
unfolding passes_under mask_cancels cancels
every_mask_cancels = refl

pub bit_xor_cancel : (a x : ℕ) → IsByte a → IsByte x → bit_xor a (bit_xor a x) ≡ x
unfolding mask_cancels cancels
bit_xor_cancel a x ha hx =
    let row = passes_under_at mask_cancels 256 ha every_mask_cancels in
    (==_iff _ x).0 (passes_under_at (cancels a) 256 hx row)
