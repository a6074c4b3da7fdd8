-- ===== src/Gateway/Middleware.antt =====
-- gateway/middleware.go, and the chain of handlers of gateway/main.go. A handler is one of Logger.
pub mod Traces
use url_shortener_microservi.Prelude.{
  ℕ, ◌/◌, ◌%◌, ◌≡◌, ◌≢◌, refl, sym, ap, ◌∙◌, subst, Bool, true, false, Text, bytes, List, [], ◌∷◌,
  Option, none, some, text_eq, is_empty, get_or, if◌then◌else◌, Bool-cases, inl, inr, ◌⊎◌,
  text_eq→≡,
}
use url_shortener_microservi.Logger.{
  Log, Line, Request, Reply, Handled, Handler, level_of, recorded, with_correlation_id,
  request_logger,
}

-- hex.EncodeToString
unfoldable pub encode_to_string : Text → Text
encode_to_string [] = []
encode_to_string (b ∷ bs) =
    get_or (bytes "0123456789abcdef") (b / 16) 0
    ∷ get_or (bytes "0123456789abcdef") (b % 16) 0
    ∷ encode_to_string bs

-- newCorrelationID; what rand.Read gives is the argument, with `none` for an error.
unfoldable pub new_correlation_id : Option Text → Text
new_correlation_id none = bytes "unknown"
new_correlation_id (some b) = encode_to_string b

-- correlationIDMiddleware
unfoldable pub correlation_id_middleware : Option Text → Handler → Handler
correlation_id_middleware random next header r =
    let id = if is_empty r.correlation_id then new_correlation_id random else r.correlation_id in
    next (record header { correlation_id = some id })
      (record r { correlation_id = id; context_id = id })

-- corsMiddleware
unfoldable pub cors_middleware : Handler → Handler
cors_middleware next header r =
    let allowing = record header { allows_origin = true } in
    if text_eq r.method (bytes "OPTIONS")
    then record {
      reply = record { writes = 204 ∷ []; header = allowing; sent = some allowing };
      correlation_id = r.correlation_id;
      lines = [];
    }
    else next allowing r

-- app of main: `mux` are the handlers that it wraps.
unfoldable pub app : Log → Option Text → Handler → Handler
app log random mux = cors_middleware (request_logger log (correlation_id_middleware random mux))
