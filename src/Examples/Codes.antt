-- ===== src/Examples/Codes.antt =====
-- Runs of the base-62 codec (services/url-service/base62.go) and of the token (shared/auth/auth.go).
use url_shortener_microservi.Prelude.{◌%◌, ◌^◌, ◌≡◌, negsuc, some}
use url_shortener_microservi.Base62.{encode, decode, ok}
use url_shortener_microservi.Base62.RoundTrip.{decode-encode}

decode-encode_example : decode (encode (some (negsuc 3844))) ≡ ok (3845 % 62 ^ 7)
decode-encode_example = decode-encode (negsuc 3844)
