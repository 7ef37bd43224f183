-- ===== src/Http/Flask.antt =====
-- `call_flask_app` of kemtls/_http_bridge.py (src/kemtls). The application is a parameter, which is
-- given what varies in the WSGI environment.
use kemtls.Common.{
  ℕ, ◌-◌, ◌&&◌, leb, ◌==◌, ◌||◌, Option, none, some, List, [], ◌∷◌, ◌++◌, map, if◌then◌else◌,
  str_eq, codes, length, Bytes, Str,
}
use kemtls.Common.Dict.{Dict, get, put, text_eq}
use kemtls.Common.Error.{Result, ok, ◌>>=◌}
use kemtls.Common.Json.{Json}
use kemtls.Session.{KemtlsSession}
use kemtls.Http.{crlf, decimal, partition, ascii, header_line, parse_http_request, Request}

-- `.upper().replace("-", "_")`, of ASCII letters.
abbrev pub header_letter : ℕ → ℕ
header_letter c = if c == 45 then 95 else (if leb 97 c && leb c 122 then c - 32 else c)

-- What varies in the WSGI environment; `headers` are the keys `HTTP_…`.
pub record Environ : Type 0 where
  pub request_method : Str
  pub path_info : Str
  pub query_string : Str
  pub server_protocol : Str
  pub content_type : Str
  pub content_length : Str
  pub input : Bytes
  pub headers : Dict Str Str
  pub session : KemtlsSession
  pub mode : Json

-- What the application gave to `start_response`, and the parts of its body in order.
pub record Reply : Type 0 where
  pub status : Str
  pub headers : List (Str × Str)
  pub parts : List Bytes

-- `path, _, query = req["path"].partition("?")`
abbrev pub path_and_query : Str → Option (Str × Str) → Str × Str
path_and_query path none = (path, [])
path_and_query path (some parts) = parts

abbrev pub or_empty : Option Str → Str
or_empty none = []
or_empty (some s) = s

-- `if not content_length: content_length = str(len(body))`
abbrev pub content_length_of : Option Str → Bytes → Str
content_length_of none body = decimal (length body)
content_length_of (some []) body = decimal (length body)
content_length_of (some (c ∷ s)) body = c ∷ s

-- The keys `HTTP_…`, without those of the content.
unfoldable pub wsgi_headers : Dict Str Str → Dict Str Str → Dict Str Str
wsgi_headers [] environ = environ
wsgi_headers ((key, value) ∷ headers) environ =
    let skipped = wsgi_headers headers environ in
    let added = wsgi_headers headers (put (codes "HTTP_" ++ map header_letter key) value environ) in
    if str_eq key (codes "content-type") || str_eq key (codes "content-length")
    then skipped
    else added

unfoldable pub environ_of : KemtlsSession → Request → Environ
environ_of session req =
    let (path, query) = path_and_query req.path (partition 63 req.path) in
    record {
      request_method = req.method;
      path_info = path;
      query_string = query;
      server_protocol = req.version;
      content_type = or_empty (get (codes "content-type") req.headers);
      content_length = content_length_of (get (codes "content-length") req.headers) req.body;
      input = req.body;
      headers = wsgi_headers req.headers [];
      session = session;
      mode = session.handshake_mode;
    }

-- `b"".join(parts)`
unfoldable pub concat : List Bytes → Bytes
concat [] = []
concat (part ∷ parts) = part ++ concat parts

-- `f"{k}: {v}\r\n"` for each header
unfoldable pub header_lines : List (Str × Str) → Str
header_lines [] = []
header_lines (h ∷ headers) = header_line h ++ (crlf ++ header_lines headers)

unfoldable pub serialize_reply : Reply → Result Bytes
serialize_reply reply = do
  status ← ascii (codes "HTTP/1.1 " ++ reply.status ++ crlf)
  headers ← ascii (header_lines reply.headers)
  ok (status ++ headers ++ crlf ++ concat reply.parts)

-- `call_flask_app`; an exception of the application passes on.
unfoldable pub call_flask_app :
    (app : Environ → Result Reply) → KemtlsSession → Bytes → Result Bytes
call_flask_app app session raw_request = do
  req ← parse_http_request raw_request
  reply ← app (environ_of session req)
  serialize_reply reply
