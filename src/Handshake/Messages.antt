-- ===== src/Handshake/Messages.antt =====
-- Messages on their way from one party to the other.
use kemtls.Common.{◌≡◌, refl, sym, ap, ◌∙◌, some, Bytes, IsBytes, Str}
use kemtls.Common.Error.{ok}
use kemtls.Common.Json.{text, object, Members, find, Python, deserialize_message}
use kemtls.Encoding.{base64url_encode}
use kemtls.Encoding.RoundTrip.{base64url_decode-base64url_encode}
use kemtls.Handshake.{decode_bytes_field}

-- JSON loads an object back from what was dumped, with the texts that it held.
pub record Reloads (p : Python) (m : Members) : Type 0 where
  pub reloaded : Members
  pub loads-dumps : p.loads (p.dumps m) ≡ some (object reloaded)
  pub find-text : (key t : Str) → find key m ≡ some (text t) → find key reloaded ≡ some (text t)

pub deserialize-dumps :
    (p : Python) (m : Members) (r : Reloads p m)
    → deserialize_message p (p.dumps m) ≡ ok (object r.reloaded)
unfolding deserialize_message
deserialize-dumps p m r = rw (r.loads-dumps) refl

-- Bytes that were put into a message are decoded from what it is loaded as.
pub decode_bytes_field-reloaded :
    (p : Python) (m : Members) (r : Reloads p m) (key : Str) (value : Bytes)
    → find key m ≡ some (text (base64url_encode value))
    → IsBytes value
    → decode_bytes_field key r.reloaded ≡ ok value
unfolding decode_bytes_field
decode_bytes_field-reloaded p m r key value found bytes =
    rw (r.find-text key (base64url_encode value) found)
      (base64url_decode-base64url_encode value bytes)

-- A message is loaded as one object.
pub loads_only :
    (p : Python) (m n : Members) (r : Reloads p m) (message : Bytes)
    → message ≡ p.dumps m
    → p.loads message ≡ some (object n)
    → n ≡ r.reloaded
loads_only p m n r message same loaded =
    let both : some (object n) ≡ some (object r.reloaded) =
      sym loaded ∙ ap p.loads same ∙ r.loads-dumps in
    cc
