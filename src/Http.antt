-- ===== src/Http.antt =====
-- kemtls/_http_bridge.py (src/kemtls) and `build_http_request` of kemtls/tcp_transport.py: requests
-- of HTTP/1.1 as bytes, and the call of a Flask application, which is a parameter. Of the backends,
-- the one in Python. Text in ASCII has the same code points as its bytes.
pub mod Lines
pub mod Flask
pub mod Ascii
pub mod Fields
pub mod RoundTrip
use kemtls.Common.{
  ℕ, zero, suc, ◌+◌, ◌-◌, ◌/◌, ◌%◌, Bool, true, false, not, ◌&&◌, ◌||◌, Option, none, some, List,
  [], ◌∷◌, ◌++◌, map, ltb, leb, ◌==◌, if◌then◌else◌, str_eq, codes, length, drop, Bytes, Str,
}
use kemtls.Common.Dict.{Dict, get, put, text_eq}
use kemtls.Common.Error.{Error, value_error, Result, ok, raised, ◌>>=◌, ◌>>◌, raise_if}
use kemtls.Common.Json.{Json}
use kemtls.Oidc.Jwt.{cut}
use kemtls.Session.{KemtlsSession}

-- `"\r\n"`
abbrev pub crlf : Bytes
crlf = 13 ∷ 10 ∷ []

abbrev pub space : ℕ
space = 32

abbrev pub colon : ℕ
colon = 58

unfoldable pub is_ascii : Str → Bool
is_ascii [] = true
is_ascii (c ∷ s) = ltb c 128 && is_ascii s

-- `.encode("ascii")` and `.decode("ascii")`, whose exceptions are ValueErrors.
unfoldable pub ascii : Str → Result Str
ascii s = if is_ascii s then ok s else raised (value_error "ordinal not in range(128)")

-- `.lower()`, of ASCII letters.
abbrev pub lower_letter : ℕ → ℕ
lower_letter c = if leb 65 c && leb c 90 then c + 32 else c

abbrev pub lower : Str → Str
lower s = map lower_letter s

-- `str(n)`: the fuel `n + 1` is more than the digits of `n`.
unfoldable pub digits : ℕ → ℕ → Str → Str
digits zero n shown = shown
digits (suc fuel) n shown =
    let more = digits fuel (n / 10) ((48 + n % 10) ∷ shown) in
    if ltb n 10 then (48 + n % 10) ∷ shown else more

abbrev pub decimal : ℕ → Str
decimal n = digits (n + 1) n []

-- `raw_data.split(b"\r\n")`; in the first argument, whether a line feed that ends a line is next.
unfoldable pub starts_crlf : Bytes → Bool
starts_crlf (c ∷ d ∷ s) = c == 13 && d == 10
starts_crlf _ = false

unfoldable pub split_lines : Bool → Bytes → List Bytes
split_lines skip [] = [] ∷ []
split_lines true (c ∷ s) = split_lines false s
split_lines false (c ∷ s) =
    let ended = split_lines true s in
    let longer = split_lines false s in if starts_crlf (c ∷ s) then [] ∷ ended else cut c longer

-- `line.split(b" ")`
unfoldable pub split_words : Bytes → List Bytes
split_words [] = [] ∷ []
split_words (c ∷ s) = let rest = split_words s in if c == space then [] ∷ rest else cut c rest

-- What stands before and after the first `c`: `line.split(c, 1)` and `path.partition(c)`.
unfoldable pub partition : ℕ → Bytes → Option (Bytes × Bytes)
partition c [] = none
partition c (d ∷ s) =
    let rest = partition c s in
    if d == c
    then some ([], s)
    else (elim rest [ none ↦ none | some parts ↦ some (d ∷ parts.0, parts.1) ])

-- The white space that `bytes.strip()` removes.
abbrev pub is_space : ℕ → Bool
is_space c = c == space || (leb 9 c && leb c 13)

unfoldable pub strip_left : Bytes → Bytes
strip_left [] = []
strip_left (c ∷ s) = let rest = strip_left s in if is_space c then rest else c ∷ s

-- A character before a text whose end is stripped.
abbrev pub before_stripped : ℕ → Bytes → Bytes
before_stripped c [] = if is_space c then [] else c ∷ []
before_stripped c (d ∷ rest) = c ∷ d ∷ rest

unfoldable pub strip_right : Bytes → Bytes
strip_right [] = []
strip_right (c ∷ s) = before_stripped c (strip_right s)

unfoldable pub strip : Bytes → Bytes
strip s = strip_right (strip_left s)

pub record Request : Type 0 where
  pub method : Str
  pub path : Str
  pub version : Str
  pub headers : Dict Str Str
  pub body : Bytes

-- `method, path, version = request_line`
abbrev pub three_words : List Bytes → Result (Bytes × Bytes × Bytes)
three_words [] = raised (value_error "Invalid HTTP request line")
three_words (a ∷ []) = raised (value_error "Invalid HTTP request line")
three_words (a ∷ b ∷ []) = raised (value_error "Invalid HTTP request line")
three_words (a ∷ b ∷ c ∷ []) = ok (a, b, c)
three_words (a ∷ b ∷ c ∷ d ∷ rest) = raised (value_error "too many values to unpack")

-- A header that a line names: `headers[k.strip().decode("ascii").lower()] = …`
abbrev pub add_header : Option (Bytes × Bytes) → Dict Str Str → Result (Dict Str Str)
add_header none headers = ok headers
add_header (some (k, v)) headers = do
  value ← ascii (strip v)
  key ← ascii (strip k)
  ok (put (lower key) value headers)

-- The loop over `lines[1:]`.
unfoldable pub header_loop : List Bytes → Dict Str Str → Result (Dict Str Str)
header_loop [] headers = ok headers
header_loop ([] ∷ lines) headers = ok headers
header_loop ((c ∷ line) ∷ lines) headers =
    add_header (partition colon (c ∷ line)) headers >>= header_loop lines

-- `raw_data[raw_data.find(b"\r\n\r\n") + 4:]`, or no bytes if it is not found.
unfoldable pub body_of : Bytes → Bytes
body_of [] = []
body_of (c ∷ s) =
    let rest = body_of s in if starts_crlf (c ∷ s) && starts_crlf (drop 1 s) then drop 3 s else rest

abbrev pub first_line : List Bytes → Bytes
first_line [] = []
first_line (line ∷ lines) = line

-- `_parse_http_request_python`
unfoldable pub parse_http_request : Bytes → Result Request
parse_http_request raw_data = do
  words ← three_words (split_words (first_line (split_lines false raw_data)))
  headers ← header_loop (drop 1 (split_lines false raw_data)) []
  method ← ascii words.0
  path ← ascii words.1
  version ← ascii words.2
  ok (record {
    method = method;
    path = path;
    version = version;
    headers = headers;
    body = body_of raw_data;
  })

abbrev pub is_named : Str → Str × Str → Bool
is_named name (key, value) = str_eq (lower key) name

-- The headers of the caller but `host`.
unfoldable pub other_headers : Dict Str Str → List (Str × Str)
other_headers [] = []
other_headers (h ∷ headers) =
    let rest = other_headers headers in if is_named (codes "host") h then rest else h ∷ rest

-- `any(key.lower() == "content-length" for key in headers)`
unfoldable pub has_length : Dict Str Str → Bool
has_length [] = false
has_length (h ∷ headers) = is_named (codes "content-length") h || has_length headers

abbrev pub length_header : Dict Str Str → Bytes → List (Str × Str)
length_header headers [] = []
length_header headers (c ∷ body) =
    if has_length headers then [] else (codes "Content-Length", decimal (length (c ∷ body))) ∷ []

abbrev pub connection_header : Bool → Str × Str
connection_header keep_alive =
    (codes "Connection", if keep_alive then codes "keep-alive" else codes "close")

-- The headers in the order of their lines.
abbrev pub sent_headers : Str → Dict Str Str → Bytes → Bool → List (Str × Str)
sent_headers host headers body keep_alive =
    (codes "Host", host)
    ∷ (other_headers headers ++ (length_header headers body ++ connection_header keep_alive ∷ []))

-- `f"{key}: {value}"`
abbrev pub header_line : Str × Str → Str
header_line (key, value) = key ++ colon ∷ space ∷ value

abbrev pub request_line : Str → Str → Str
request_line method path = method ++ space ∷ (path ++ space ∷ codes "HTTP/1.1")

-- `"\r\n".join(lines)`
unfoldable pub join_lines : List Str → Str
join_lines [] = []
join_lines (line ∷ lines) =
    let rest = join_lines lines in elim lines [ [] ↦ line | l ∷ more ↦ line ++ (crlf ++ rest) ]

unfoldable pub build_http_request : Str → Str → Str → Dict Str Str → Bytes → Bool → Result Bytes
build_http_request host method path headers body keep_alive = do
  head ← ascii (
      join_lines
        (request_line method path ∷ map header_line (sent_headers host headers body keep_alive))
      ++ crlf
      ++ crlf)
  ok (head ++ body)
