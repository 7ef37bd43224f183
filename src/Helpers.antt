-- ===== src/Helpers.antt =====
-- utils/helpers.py (src/utils): expiry, the display of tokens and the form of session ids. A draw of
-- `secrets.choice` is an argument, as its index in the character set. Numbers are integers, so the
-- checks on their type are left out.
pub mod Laws
use kemtls.Common.{
  ℕ, zero, suc, ◌-◌, ◌/◌, ◌+◌, Bool, true, false, ◌&&◌, ◌||◌, not, Option, none, some, List, [],
  ◌∷◌, ◌++◌, leb, ltb, ◌==◌, if◌then◌else◌, codes, length, take, drop, Str,
}
use kemtls.Common.Error.{Error, value_error, index_error, Result, ok, raised, ◌>>=◌, ◌>>◌, raise_if}

abbrev pub default_charset : Str
default_charset =
    codes "abcdefghijklmnopqrstuvwxyzABCDEFGHIJKLMNOPQRSTUVWXYZ" ++ codes "0123456789" ++ codes "-_"

-- `charset[index]`
unfoldable pub char_at : ℕ → Str → Result ℕ
char_at n [] = raised (index_error "string index out of range")
char_at zero (c ∷ charset) = ok c
char_at (suc n) (c ∷ charset) = char_at n charset

-- `"".join(secrets.choice(charset) for _ in range(length))`, one draw for each character
unfoldable pub generate_random_string : List ℕ → Str → Result Str
generate_random_string draws [] = raised (value_error "charset must be a non-empty string")
generate_random_string [] (c ∷ charset) = ok []
generate_random_string (draw ∷ draws) (c ∷ charset) = do
  drawn ← char_at draw (c ∷ charset)
  rest ← generate_random_string draws (c ∷ charset)
  ok (drawn ∷ rest)

unfoldable pub is_expired : Option ℕ → ℕ → Bool
is_expired none current_time = false
is_expired (some expiry_timestamp) current_time = leb expiry_timestamp current_time

-- `token[-n:]`, for a positive n
abbrev pub last : ℕ → Str → Str
last n token = drop (length token - n) token

unfoldable pub format_token_for_display : Str → ℕ → Result Str
format_token_for_display token max_length =
    if ltb max_length 7
    then raised (value_error "max_length must be at least 7")
    else if leb (length token) max_length
    then ok token
    else ok (take (max_length / 2 - 2) token ++ (codes "..." ++ last (max_length / 2 - 1) token))

-- `char in allowed`
unfoldable pub is_allowed : Str → ℕ → Bool
is_allowed [] c = false
is_allowed (d ∷ charset) c = c == d || is_allowed charset c

unfoldable pub all_allowed : Str → Bool
all_allowed [] = true
all_allowed (c ∷ s) = is_allowed default_charset c && all_allowed s

unfoldable pub validate_session_id : Str → Bool
validate_session_id session_id =
    if ltb (length session_id) 8 || ltb 128 (length session_id)
    then false
    else all_allowed session_id
