-- ===== src/Http/Ascii.antt =====
-- Text in ASCII, and its white space.
use kemtls.Common.{
  ℕ, ◌≡◌, refl, ◌∙◌, sym, arith, inl, inr, true, ◌&&◌, List, [], ◌∷◌, ◌++◌, All, Bool-cases, ltb,
  Str,
}
use kemtls.Common.Dict.{text_eq}
use kemtls.Common.Error.{ok}
use kemtls.Http.{crlf, is_ascii, ascii, strip_left, before_stripped, strip_right, strip}
use kemtls.Http.Lines.{terminated}

pub is_ascii-append : (a b : Str) → is_ascii (a ++ b) ≡ is_ascii a && is_ascii b
unfolding is_ascii
is_ascii-append [] b = refl
is_ascii-append (c ∷ a) b = ground (arith, is_ascii-append a b)

pub ascii-eq : (s : Str) → is_ascii s ≡ true → ascii s ≡ ok s
unfolding ascii
ascii-eq s h = rw h refl

pub ascii_inv : (s : Str) {t : Str} → ascii s ≡ ok t → (is_ascii s ≡ true) × (s ≡ t)
unfolding ascii
ascii_inv s h = elim (Bool-cases (is_ascii s)) [
  | inl e ↦ (e, ground arith)
  | inr e ↦ absurd (ground arith)
]

is_ascii-strip_left : (s : Str) → is_ascii s ≡ true → is_ascii (strip_left s) ≡ true
unfolding is_ascii strip_left
is_ascii-strip_left [] h = refl
is_ascii-strip_left (c ∷ s) h = ground (arith, is_ascii-strip_left s)

pub is_ascii_parts :
    (c : ℕ) (s : Str) → is_ascii (c ∷ s) ≡ true → (ltb c 128 ≡ true) × (is_ascii s ≡ true)
unfolding is_ascii
is_ascii_parts c s h = (ground arith, ground arith)

is_ascii-before_stripped :
    (c : ℕ) (s : Str) → ltb c 128 ≡ true → is_ascii s ≡ true → is_ascii (before_stripped c s) ≡ true
unfolding is_ascii
is_ascii-before_stripped c [] hc h = ground arith
is_ascii-before_stripped c (d ∷ s) hc h = ground arith

is_ascii-strip_right : (s : Str) → is_ascii s ≡ true → is_ascii (strip_right s) ≡ true
unfolding strip_right is_ascii
is_ascii-strip_right [] h = refl
is_ascii-strip_right (c ∷ s) h =
    let (hc, hs) = is_ascii_parts c s h in
    is_ascii-before_stripped c (strip_right s) hc (is_ascii-strip_right s hs)

pub is_ascii-strip : (s : Str) → is_ascii s ≡ true → is_ascii (strip s) ≡ true
unfolding strip
is_ascii-strip s h = is_ascii-strip_right (strip_left s) (is_ascii-strip_left s h)

pub is_ascii-terminated :
    (lines : List Str) (rest : Str)
    → is_ascii (terminated lines rest) ≡ true
    → All (λ line. is_ascii line ≡ true) lines
unfolding is_ascii
is_ascii-terminated [] rest h = tt
is_ascii-terminated (line ∷ lines) rest h =
    let parts : is_ascii line && is_ascii (terminated lines rest) ≡ true =
      sym (is_ascii-append line (crlf ++ terminated lines rest)) ∙ h in
    (ground arith, is_ascii-terminated lines rest (ground arith))
