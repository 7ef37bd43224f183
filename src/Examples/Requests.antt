-- ===== src/Examples/Requests.antt =====
-- A request of a client, as the server reads it.
use kemtls.Common.{◌≡◌, refl, arith, true, [], ◌∷◌, codes, Bytes, Str, str_eq}
use kemtls.Common.Dict.{Dict, text_eq}
use kemtls.Common.Error.{Result, ok, raised}
use kemtls.Http.{
  is_ascii, ascii, parse_http_request, sent_headers, other_headers, has_length, digits, join_lines,
  build_http_request,
}
use kemtls.Http.Fields.{read_headers}
use kemtls.Http.RoundTrip.{parse_http_request-build_http_request}

abbrev asked : Dict Str Str
asked = (codes "Accept", codes "text/plain") ∷ []

abbrev or_empty : Result Bytes → Bytes
or_empty (ok message) = message
or_empty (raised e) = []

abbrev post : Bytes
post =
    or_empty
      (build_http_request (codes "op") (codes "POST") (codes "/token") asked (codes "code=1") true)

posted :
    build_http_request (codes "op") (codes "POST") (codes "/token") asked (codes "code=1") true
    ≡ ok post
unfolding build_http_request ascii is_ascii join_lines other_headers has_length digits str_eq
posted = refl

parse_http_request-build_http_request_example :
    parse_http_request post
    ≡ ok (record {
      method = codes "POST";
      path = codes "/token";
      version = codes "HTTP/1.1";
      headers = read_headers (sent_headers (codes "op") asked (codes "code=1") true) [];
      body = codes "code=1";
    })
parse_http_request-build_http_request_example =
    parse_http_request-build_http_request (codes "op") (codes "POST") (codes "/token") asked
      (codes "code=1") true (ground arith) (ground arith) (ground arith) (ground arith) posted
