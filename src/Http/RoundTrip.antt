-- ===== src/Http/RoundTrip.antt =====
-- What the server reads of a request that the client builds.
use kemtls.Common.{
  ◌≡◌, ◌≢◌, refl, ap, ◌∙◌, sym, arith, Bool, true, false, drop, ◌&&◌, List, [], ◌∷◌, ◌++◌, map,
  append_assoc, All, All-append, codes, Bytes, Str,
}
use kemtls.Common.Dict.{Dict, text_eq}
use kemtls.Common.Error.{ok, >>=-eq-ok, ok_injective}
use kemtls.Http.{
  crlf, space, is_ascii, ascii, first_line, split_lines, split_words, three_words, header_loop,
  body_of, parse_http_request, sent_headers, header_line, request_line, join_lines,
  build_http_request,
}
use kemtls.Http.Lines.{
  IsLine, IsHeadLine, IsHeadLine-append, terminated, split_lines-terminated, body_of-terminated,
  join_lines-terminated,
}
use kemtls.Http.Ascii.{ascii-eq, ascii_inv, is_ascii-append, is_ascii-terminated}
use kemtls.Http.Fields.{
  IsField, IsField-IsHeadLine, header_loop-fields, is_plain-IsLine, read_headers,
  sent_headers-IsField,
}

-- A word of the request line.
abbrev pub IsWord : Str → Type 0
IsWord = All (λ c. (c ≢ 13) × (c ≢ space))

split_words-append : (a b : Str) → IsWord a → split_words (a ++ space ∷ b) ≡ a ∷ split_words b
unfolding split_words
split_words-append [] b h = refl
split_words-append (c ∷ a) b (fine, h) = rw (split_words-append a b h) (ground arith)

request_line_words :
    (method path : Str)
    → IsWord method
    → IsWord path
    → split_words (request_line method path) ≡ method ∷ path ∷ codes "HTTP/1.1" ∷ []
unfolding split_words
request_line_words method path hm hp =
    split_words-append method (path ++ space ∷ codes "HTTP/1.1") hm
    ∙ ap (λ (l : List Str). method ∷ l) (split_words-append path (codes "HTTP/1.1") hp)

parse_http_request-eq :
    (raw method path version : Str) (headers : Dict Str Str)
    → three_words (split_words (first_line (split_lines false raw))) ≡ ok (method, path, version)
    → header_loop (drop 1 (split_lines false raw)) [] ≡ ok headers
    → is_ascii method ≡ true
    → is_ascii path ≡ true
    → is_ascii version ≡ true
    → parse_http_request raw
      ≡ ok (record {
        method = method;
        path = path;
        version = version;
        headers = headers;
        body = body_of raw;
      })
unfolding parse_http_request
parse_http_request-eq raw method path version headers words fields am ap av =
    rw (words, fields, ascii-eq method am, ascii-eq path ap, ascii-eq version av) refl

version_ascii : is_ascii (codes "HTTP/1.1") ≡ true
unfolding is_ascii
version_ascii = refl

-- The parts of a request line in ASCII are in ASCII.
request_line_ascii :
    (method path : Str)
    → is_ascii (request_line method path) ≡ true
    → (is_ascii method ≡ true) × (is_ascii path ≡ true)
unfolding is_ascii
request_line_ascii method path h =
    let outer : is_ascii method && is_ascii (path ++ space ∷ codes "HTTP/1.1") ≡ true =
      sym (is_ascii-append method (space ∷ (path ++ space ∷ codes "HTTP/1.1"))) ∙ h in
    (ground arith, ground (arith, is_ascii-append path (space ∷ codes "HTTP/1.1")))

word-IsLine : (s : Str) → IsWord s → IsLine s
word-IsLine [] h = tt
word-IsLine (c ∷ s) (fine, h) = (fine.0, word-IsLine s h)

parse_http_request-terminated :
    (method path : Str) (fields : List (Str × Str)) (body : Bytes)
    → IsWord method
    → IsWord path
    → All IsField fields
    → All (λ line. is_ascii line ≡ true) (request_line method path ∷ map header_line fields)
    → parse_http_request
        (terminated (request_line method path ∷ map header_line fields) (crlf ++ body))
      ≡ ok (record {
        method = method;
        path = path;
        version = codes "HTTP/1.1";
        headers = read_headers fields [];
        body = body;
      })
parse_http_request-terminated method path fields body hm hp hf (request_ascii, ha) =
    let lines : List Bytes = request_line method path ∷ map header_line fields in
    let raw : Bytes = terminated lines (crlf ++ body) in
    let request_head : IsHeadLine (request_line method path) =
      IsHeadLine-append method space (path ++ space ∷ codes "HTTP/1.1") (word-IsLine method hm)
        (λ same. omega arith)
        (All-append (λ c. c ≢ 13) path (space ∷ codes "HTTP/1.1") (word-IsLine path hp)
          (is_plain-IsLine (space ∷ codes "HTTP/1.1") refl)) in
    let heads : All IsHeadLine (map header_line fields) = IsField-IsHeadLine fields hf in
    let split : split_lines false raw ≡ lines ++ [] ∷ split_lines false body =
      split_lines-terminated lines body (request_head, heads) in
    let (ascii_method, ascii_path) = request_line_ascii method path request_ascii in
    parse_http_request-eq raw method path (codes "HTTP/1.1") (read_headers fields [])
      (ap (λ (l : List Bytes). three_words (split_words (first_line l))) split
        ∙ ap three_words (request_line_words method path hm hp))
      (ap (λ (l : List Bytes). header_loop (drop 1 l) []) split
        ∙ header_loop-fields fields (split_lines false body) [] hf ha)
      ascii_method ascii_path version_ascii
    ∙ ap
        (λ (b : Bytes). ok (record {
          method = method;
          path = path;
          version = codes "HTTP/1.1";
          headers = read_headers fields [];
          body = b;
        }))
        (body_of-terminated (request_line method path) (map header_line fields) body request_head
          heads)

-- A request that the client builds is read by the server with the same method, path and body, and
-- with its headers in the order of their lines, if the words of the request line have no space, no
-- name of a header has a colon, and none of these texts has a carriage return.
pub parse_http_request-build_http_request :
    (host method path : Str) (headers : Dict Str Str) (body : Bytes) (keep_alive : Bool)
    {message : Bytes}
    → IsLine host
    → IsWord method
    → IsWord path
    → All IsField headers
    → build_http_request host method path headers body keep_alive ≡ ok message
    → parse_http_request message
      ≡ ok (record {
        method = method;
        path = path;
        version = codes "HTTP/1.1";
        headers = read_headers (sent_headers host headers body keep_alive) [];
        body = body;
      })
unfolding build_http_request
parse_http_request-build_http_request host method path headers body keep_alive {message} hh hm hp hs
      h =
    let fields : List (Str × Str) = sent_headers host headers body keep_alive in
    let lines : List Str = request_line method path ∷ map header_line fields in
    let (head, encoded, made) = >>=-eq-ok (ascii (join_lines lines ++ crlf ++ crlf)) _ h in
    let (head_ascii, same) = ascii_inv (join_lines lines ++ crlf ++ crlf) encoded in
    let joined : (rest : Bytes) → (join_lines lines ++ crlf) ++ rest ≡ terminated lines rest =
      λ rest.
        append_assoc (join_lines lines) crlf rest
        ∙ join_lines-terminated (request_line method path) (map header_line fields) rest in
    let whole : message ≡ terminated lines (crlf ++ body) =
      sym (ok_injective made)
      ∙ ap (λ (t : Bytes). t ++ body) (sym same)
      ∙ append_assoc (join_lines lines ++ crlf) crlf body
      ∙ joined (crlf ++ body) in
    ap parse_http_request whole
    ∙ parse_http_request-terminated method path fields body hm hp
        (sent_headers-IsField host headers body keep_alive hh hs)
        (is_ascii-terminated lines crlf (sym (ap is_ascii (joined crlf)) ∙ head_ascii))
