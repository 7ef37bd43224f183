-- ===== src/Helpers/Laws.antt =====
-- The bounds of a displayed token, and the session ids that are drawn.
use kemtls.Common.{
  ℕ, zero, suc, ◌-◌, ◌/◌, ◌≤◌, ◌≡◌, refl, ap, arith, inl, inr, Bool-cases, true, false, List, [],
  ◌∷◌, ◌++◌, leb, ltb, ==_iff, codes, length, take, length-append, length-take, length-drop, Str,
}
use kemtls.Common.Error.{ok, >>=-eq-ok, ok_injective}
use kemtls.Helpers.{
  default_charset, char_at, generate_random_string, last, format_token_for_display, is_allowed,
  all_allowed, validate_session_id,
}

-- A token is displayed in at most `max_length` characters, for every bound of seven or more, and is
-- shown whole if it fits.
pub length-format_token_for_display :
    (token : Str) (max_length : ℕ)
    → 7 ≤ max_length
    → (shown : Str) × (format_token_for_display token max_length ≡ ok shown)
      × (length shown ≤ max_length)
      × (length token ≤ max_length → shown ≡ token)
unfolding format_token_for_display
length-format_token_for_display token max_length large =
    let enough : ltb max_length 7 ≡ false = ground arith in
    elim (Bool-cases (leb (length token) max_length)) [
      | inl fits ↦ (token, rw (enough, fits) refl, ground arith, λ h. refl)
      | inr long ↦
          let head = take (max_length / 2 - 2) token in
          let tail = last (max_length / 2 - 1) token in
          (
            head ++ (codes "..." ++ tail),
            rw (enough, long) refl,
            omega (
              arith,
              length-append head (codes "..." ++ tail),
              length-append (codes "...") tail,
              length-take (max_length / 2 - 2) token,
              length-drop (length token - (max_length / 2 - 1)) token,
            ),
            λ h. absurd (ground arith),
          )
    ]

char_at-allowed :
    (n : ℕ) (charset : Str) {c : ℕ} → char_at n charset ≡ ok c → is_allowed charset c ≡ true
unfolding char_at is_allowed
char_at-allowed n [] h = absurd (ground arith)
char_at-allowed zero (d ∷ charset) {c} h = ground (arith, ==_iff c d)
char_at-allowed (suc n) (d ∷ charset) {c} h = ground (arith, char_at-allowed n charset h)

generate_random_string_inv :
    (draws : List ℕ) {s : Str}
    → generate_random_string draws default_charset ≡ ok s
    → (all_allowed s ≡ true) × (length s ≡ length draws)
unfolding generate_random_string all_allowed
generate_random_string_inv [] {s} h = let same : [] ≡ s = ok_injective h in rw (← same) (refl, refl)
generate_random_string_inv (draw ∷ draws) {s} h =
    let (c, drawn, h1) = >>=-eq-ok (char_at draw default_charset) _ h in
    let (rest, more, h2) = >>=-eq-ok (generate_random_string draws default_charset) _ h1 in
    let (allowed, size) = generate_random_string_inv draws more in
    let same : c ∷ rest ≡ s = ok_injective h2 in
    rw (← same, char_at-allowed draw default_charset drawn, allowed) (refl, ap suc size)

-- A random text of 8 to 128 characters, drawn from the default character set, is a valid session id.
pub validate_session_id-generate_random_string :
    (draws : List ℕ) (session_id : Str)
    → 8 ≤ length draws
    → length draws ≤ 128
    → generate_random_string draws default_charset ≡ ok session_id
    → validate_session_id session_id ≡ true
unfolding validate_session_id
validate_session_id-generate_random_string draws session_id low high h =
    let (allowed, size) = generate_random_string_inv draws h in
    let a : ltb (length session_id) 8 ≡ false = ground (arith, size) in
    let b : ltb 128 (length session_id) ≡ false = ground (arith, size) in rw (a, b) allowed
