-- ===== src/Http/Fields.antt =====
-- The header lines of a request.
use kemtls.Common.{
  ℕ, ◌≡◌, ◌≢◌, refl, ap, ◌∙◌, sym, arith, inl, inr, Bool, true, false, not, length, ◌&&◌, some,
  List, [], ◌∷◌, ◌++◌, map, All, All-append, Bool-cases, ◌==◌, codes, ltb, zero, suc, ◌+◌, ◌%◌, ◌/◌,
  Bytes, Str,
}
use kemtls.Common.Dict.{Dict, put, text_eq}
use kemtls.Common.Error.{Result, ok, ◌>>=◌}
use kemtls.Http.{
  space, colon, is_ascii, lower, digits, decimal, partition, strip_left, strip, add_header,
  header_loop, other_headers, is_named, has_length, length_header, connection_header, sent_headers,
  header_line,
}
use kemtls.Http.Lines.{IsLine, IsHeadLine, IsHeadLine-append}
use kemtls.Http.Ascii.{ascii-eq, is_ascii-append, is_ascii-strip, is_ascii_parts}

-- A header whose name has no colon and which stays on its line.
abbrev pub IsField : Str × Str → Type 0
IsField (key, value) = All (λ c. (c ≢ 13) × (c ≢ colon)) key × IsLine value

-- The dictionary of headers in the order of their lines; a later one replaces an earlier one of the
-- same name.
abbrev pub read_headers : List (Str × Str) → Dict Str Str → Dict Str Str
read_headers [] headers = headers
read_headers ((key, value) ∷ fields) headers =
    read_headers fields (put (lower (strip key)) (strip value) headers)

partition-append : (c : ℕ) (a b : Str) → All (λ d. d ≢ c) a → partition c (a ++ c ∷ b) ≡ some (a, b)
unfolding partition
partition-append c [] b h = ground arith
partition-append c (d ∷ a) b (other, h) = rw (partition-append c a b h) (ground arith)

no_colon : (key : Str) → All (λ c. (c ≢ 13) × (c ≢ colon)) key → All (λ c. c ≢ colon) key
no_colon [] h = tt
no_colon (c ∷ key) (fine, h) = (fine.1, no_colon key h)

no_return : (key : Str) → All (λ c. (c ≢ 13) × (c ≢ colon)) key → IsLine key
no_return [] h = tt
no_return (c ∷ key) (fine, h) = (fine.0, no_return key h)

-- The header of a field line.
add_header-line :
    (key value : Str) (headers : Dict Str Str)
    → IsField (key, value)
    → is_ascii (header_line (key, value)) ≡ true
    → add_header (partition colon (header_line (key, value))) headers
      ≡ ok (put (lower (strip key)) (strip value) headers)
unfolding strip strip_left
add_header-line key value headers (hk, hv) h =
    let parts : is_ascii key && is_ascii (colon ∷ space ∷ value) ≡ true =
      sym (is_ascii-append key (colon ∷ space ∷ value)) ∙ h in
    let (hc, after) = is_ascii_parts colon (space ∷ value) (ground arith) in
    let (hs, ascii_value) = is_ascii_parts space value after in
    let ascii_key : is_ascii key ≡ true = ground arith in
    rw (partition-append colon key (space ∷ value) (no_colon key hk)) (
      rw
        (
          ascii-eq (strip value) (is_ascii-strip value ascii_value),
          ascii-eq (strip key) (is_ascii-strip key ascii_key),
        )
        refl)

header_loop-line :
    (key value : Str) (lines : List Bytes) (headers : Dict Str Str)
    → header_loop (header_line (key, value) ∷ lines) headers
      ≡ (add_header (partition colon (header_line (key, value))) headers >>= header_loop lines)
unfolding header_loop
header_loop-line [] value lines headers = refl
header_loop-line (c ∷ key) value lines headers = refl

pub header_loop-fields :
    (fields : List (Str × Str)) (rest : List Bytes) (headers : Dict Str Str)
    → All IsField fields
    → All (λ line. is_ascii line ≡ true) (map header_line fields)
    → header_loop (map header_line fields ++ [] ∷ rest) headers ≡ ok (read_headers fields headers)
unfolding header_loop
header_loop-fields [] rest headers hf ha = refl
header_loop-fields ((key, value) ∷ fields) rest headers (is_field, hf) (is_asc, ha) =
    header_loop-line key value (map header_line fields ++ [] ∷ rest) headers
    ∙ ap (λ (r : Result (Dict Str Str)). r >>= header_loop (map header_line fields ++ [] ∷ rest))
        (add_header-line key value headers is_field is_asc)
    ∙ header_loop-fields fields rest (put (lower (strip key)) (strip value) headers) hf ha

IsField-other_headers :
    (headers : Dict Str Str) → All IsField headers → All IsField (other_headers headers)
unfolding other_headers
IsField-other_headers [] h = tt
IsField-other_headers (field ∷ headers) (is_field, h) =
    elim (Bool-cases (is_named (codes "host") field)) [
      | inl e ↦ rw e (IsField-other_headers headers h)
      | inr e ↦ rw e (is_field, IsField-other_headers headers h)
    ]

digits-IsLine : (fuel n : ℕ) (shown : Str) → IsLine shown → IsLine (digits fuel n shown)
unfolding digits
digits-IsLine zero n shown h = h
digits-IsLine (suc fuel) n shown h =
    let longer : IsLine ((48 + n % 10) ∷ shown) = (λ same. omega arith, h) in
    elim (Bool-cases (ltb n 10)) [
      | inl e ↦ rw e longer
      | inr e ↦ rw e (digits-IsLine fuel (n / 10) ((48 + n % 10) ∷ shown) longer)
    ]

-- A test for the names and values that the client writes itself.
abbrev is_plain : Str → Bool
is_plain [] = true
is_plain (c ∷ s) = not (c == 13) && not (c == colon) && is_plain s

is_plain-IsField : (key value : Str) → is_plain key ≡ true → IsLine value → IsField (key, value)
is_plain-IsField [] value h hv = (tt, hv)
is_plain-IsField (c ∷ key) value h hv =
    let (hk, hv) = is_plain-IsField key value (ground arith) hv in
    (((λ same. ground arith, λ same. ground arith), hk), hv)

pub is_plain-IsLine : (s : Str) → is_plain s ≡ true → IsLine s
is_plain-IsLine [] h = tt
is_plain-IsLine (c ∷ s) h = (λ same. ground arith, is_plain-IsLine s (ground arith))

length_header-IsField :
    (headers : Dict Str Str) (body : Bytes) → All IsField (length_header headers body)
length_header-IsField headers [] = tt
length_header-IsField headers (c ∷ body) = elim (Bool-cases (has_length headers)) [
  | inl e ↦ rw e tt
  | inr e ↦ rw e (
    is_plain-IsField (codes "Content-Length") (decimal (length (c ∷ body))) refl
        (digits-IsLine (length (c ∷ body) + 1) (length (c ∷ body)) [] tt),
    tt,
  )
]

connection_header-IsField : (keep_alive : Bool) → IsField (connection_header keep_alive)
connection_header-IsField true =
    is_plain-IsField (codes "Connection") (codes "keep-alive") refl
      (is_plain-IsLine (codes "keep-alive") refl)
connection_header-IsField false =
    is_plain-IsField (codes "Connection") (codes "close") refl
      (is_plain-IsLine (codes "close") refl)

pub sent_headers-IsField :
    (host : Str) (headers : Dict Str Str) (body : Bytes) (keep_alive : Bool)
    → IsLine host
    → All IsField headers
    → All IsField (sent_headers host headers body keep_alive)
sent_headers-IsField host headers body keep_alive hh hs = (
  is_plain-IsField (codes "Host") host refl hh,
  All-append IsField (other_headers headers)
      (length_header headers body ++ connection_header keep_alive ∷ [])
      (IsField-other_headers headers hs)
      (All-append IsField (length_header headers body) (connection_header keep_alive ∷ [])
        (length_header-IsField headers body) (connection_header-IsField keep_alive, tt)),
)

pub IsField-IsHeadLine :
    (fields : List (Str × Str)) → All IsField fields → All IsHeadLine (map header_line fields)
IsField-IsHeadLine [] h = tt
IsField-IsHeadLine ((key, value) ∷ fields) ((hk, hv), h) = (
  IsHeadLine-append key colon (space ∷ value) (no_return key hk) (λ same. omega arith)
      (λ same. omega arith, hv),
  IsField-IsHeadLine fields h,
)
