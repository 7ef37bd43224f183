-- ===== src/Common/Words.antt =====
-- Bytes, and the big-endian fields of `struct.pack`, `int.to_bytes` and `int.from_bytes`.
use Prim.Native.Nat.{ℕ, zero, suc, ◌+◌, ◌*◌, ◌/◌, ◌%◌, ◌^◌, ◌<◌}
use mathlib.Core.Path.{◌≡◌, refl}
use mathlib.Core.List.{List, [], ◌∷◌, ◌++◌, foldl, foldl-append}
use native.Mathlib.Nat.{pow-suc}
use native.Mathlib.Omega.{arith}
use kemtls.Common.Lists.{length, length-append, All, All-append}

abbrev pub Bytes : Type 0
Bytes = List ℕ

-- A `str`, as its code points.
abbrev pub Str : Type 0
Str = List ℕ

abbrev pub IsByte : ℕ → Type 0
IsByte b = b < 256

abbrev pub IsBytes : Bytes → Type 0
IsBytes = All IsByte

-- `v.to_bytes(k, "big")`, for a `v` that fits.
unfoldable pub to_bytes : ℕ → ℕ → Bytes
to_bytes zero v = []
to_bytes (suc k) v = to_bytes k (v / 256) ++ v % 256 ∷ []

abbrev pub add_byte : ℕ → ℕ → ℕ
add_byte acc b = acc * 256 + b

-- `int.from_bytes(bs, "big")`
unfoldable pub from_bytes : Bytes → ℕ
from_bytes = foldl add_byte 0

pub length-to_bytes : (k v : ℕ) → length (to_bytes k v) ≡ k
unfolding to_bytes
length-to_bytes zero v = refl
length-to_bytes (suc k) v =
    omega (arith, length-append (to_bytes k (v / 256)) (v % 256 ∷ []), length-to_bytes k (v / 256))

pub to_bytes-IsBytes : (k v : ℕ) → IsBytes (to_bytes k v)
unfolding to_bytes
to_bytes-IsBytes zero v = tt
to_bytes-IsBytes (suc k) v =
    All-append IsByte (to_bytes k (v / 256)) (v % 256 ∷ []) (to_bytes-IsBytes k (v / 256))
      (omega arith, tt)

from_bytes-append_byte : (bs : Bytes) (b : ℕ) → from_bytes (bs ++ b ∷ []) ≡ from_bytes bs * 256 + b
unfolding from_bytes
from_bytes-append_byte bs b = foldl-append add_byte 0 bs (b ∷ [])

pub from_bytes-to_bytes : (k v : ℕ) → v < 256 ^ k → from_bytes (to_bytes k v) ≡ v
unfolding to_bytes
from_bytes-to_bytes zero v h = unfold from_bytes in omega arith
from_bytes-to_bytes (suc k) v h = omega (
  arith,
  pow-suc 256 k,
  from_bytes-append_byte (to_bytes k (v / 256)) (v % 256),
  from_bytes-to_bytes k (v / 256) (omega (arith, pow-suc 256 k)),
)

-- A byte string seen from its end.
data Snoc : Bytes → Type 0 where
  empty : Snoc []
  snoc : (bs : Bytes) (b : ℕ) → Snoc (bs ++ b ∷ [])

Snoc-cons : (a : ℕ) {bs : Bytes} → Snoc bs → Snoc (a ∷ bs)
Snoc-cons a empty = snoc [] a
Snoc-cons a (snoc bs b) = snoc (a ∷ bs) b

Snoc-view : (bs : Bytes) → Snoc bs
Snoc-view [] = empty
Snoc-view (b ∷ bs) = Snoc-cons b (Snoc-view bs)

IsBytes-snoc : (bs : Bytes) (b : ℕ) → IsBytes (bs ++ b ∷ []) → IsBytes bs × IsByte b
IsBytes-snoc [] b (p, _) = (tt, p)
IsBytes-snoc (a ∷ bs) b (p, h) = let (init, last) = IsBytes-snoc bs b h in ((p, init), last)

-- Every byte string of k bytes is the k-byte form of its number, which is below 256 ^ k.
to_bytes-from_bytes_step :
    (k : ℕ) {bs : Bytes}
    → Snoc bs
    → ((cs : Bytes)
        → IsBytes cs
        → length cs ≡ k
        → (to_bytes k (from_bytes cs) ≡ cs) × (from_bytes cs < 256 ^ k))
    → IsBytes bs
    → length bs ≡ suc k
    → (to_bytes (suc k) (from_bytes bs) ≡ bs) × (from_bytes bs < 256 ^ suc k)
unfolding to_bytes
to_bytes-from_bytes_step k empty ih h e = absurd (omega arith)
to_bytes-from_bytes_step k (snoc bs b) ih h e =
    let (init, last) = IsBytes-snoc bs b h in
    let (same, small) = ih bs init (omega (arith, length-append bs (b ∷ []))) in
    let value : from_bytes (bs ++ b ∷ []) ≡ from_bytes bs * 256 + b = from_bytes-append_byte bs b in
    let high : from_bytes (bs ++ b ∷ []) / 256 ≡ from_bytes bs = omega arith in
    let low : from_bytes (bs ++ b ∷ []) % 256 ≡ b = omega arith in
    (rw (high, low, same), omega (arith, pow-suc 256 k))

pub to_bytes-from_bytes :
    (k : ℕ) (bs : Bytes)
    → IsBytes bs
    → length bs ≡ k
    → (to_bytes k (from_bytes bs) ≡ bs) × (from_bytes bs < 256 ^ k)
to_bytes-from_bytes zero [] h e = unfold to_bytes from_bytes in (refl, omega arith)
to_bytes-from_bytes zero (b ∷ bs) h e = absurd (omega arith)
to_bytes-from_bytes (suc k) bs h e =
    to_bytes-from_bytes_step k (Snoc-view bs) (to_bytes-from_bytes k) h e
