-- ===== src/Common/Int.antt =====
-- Integers, which Python does not bound on either side, compared with a time.
use Prim.Native.Nat.{ℕ, ◌<◌, ◌≤◌}
use mathlib.Core.Bool.{Bool, true, false}
use mathlib.Core.Path.{◌≡◌}
use native.Mathlib.Omega.{arith}
use kemtls.Common.Tests.{ltb}

pub data ℤ : Type 0 where
  pos : ℕ → ℤ
  negsuc : ℕ → ℤ

-- `i > n`, `i < n`
abbrev pub is_after : ℤ → ℕ → Bool
is_after (pos m) n = ltb n m
is_after (negsuc m) n = false

abbrev pub is_before : ℤ → ℕ → Bool
is_before (pos m) n = ltb m n
is_before (negsuc m) n = true

abbrev pub After : ℤ → ℕ → Type 0
After (pos m) n = n < m
After (negsuc m) n = ⊥

abbrev pub NotAfter : ℤ → ℕ → Type 0
NotAfter (pos m) n = m ≤ n
NotAfter (negsuc m) n = Unit {0}

abbrev pub NotBefore : ℤ → ℕ → Type 0
NotBefore (pos m) n = n ≤ m
NotBefore (negsuc m) n = ⊥

pub is_after-After : (i : ℤ) (n : ℕ) → is_after i n ≡ true → After i n
is_after-After (pos m) n h = ground arith
is_after-After (negsuc m) n h = absurd (ground arith)

pub is_after-NotAfter : (i : ℤ) (n : ℕ) → is_after i n ≡ false → NotAfter i n
is_after-NotAfter (pos m) n h = ground arith
is_after-NotAfter (negsuc m) n h = tt

pub is_before-NotBefore : (i : ℤ) (n : ℕ) → is_before i n ≡ false → NotBefore i n
is_before-NotBefore (pos m) n h = ground arith
is_before-NotBefore (negsuc m) n h = absurd (ground arith)
