-- ===== src/Logger.antt =====
-- shared/logger/logger.go. A handler is given the header of the response as it is set so far, and a
-- request with the correlation id of its context; it answers with what it has written, with the request's
-- header after it, which it shares with its callers, and with the lines that were logged meanwhile. Of
-- the headers only X-Correlation-ID and the permission for other origins are kept.
use url_shortener_microservi.Prelude.{
  ℕ, Bool, Text, List, [], ◌∷◌, ◌++◌, Option, none, some, is_empty, leb, if◌then◌else◌,
}

pub data Level : Type 0 where
  info warn error : Level

-- A slog.Logger of New: its attributes
pub record Log : Type 0 where
  pub service : Text
  pub correlation_id : Option Text

-- New
unfoldable pub new : Text → Log
new service_name = record { service = service_name; correlation_id = none }

-- WithCorrelationID
unfoldable pub with_correlation_id : Log → Text → Log
with_correlation_id log id = if is_empty id then log else record log { correlation_id = some id }

-- What RequestLogger logs; the level of the handler is Info, which no line is below.
pub record Line : Type 0 where
  pub level : Level
  pub log : Log
  pub method : Text
  pub path : Text
  pub status : ℕ

-- The context's id is empty if there is none, as CorrelationIDFromContext returns it.
pub record Request : Type 0 where
  pub method : Text
  pub path : Text
  pub correlation_id : Text
  pub context_id : Text

-- The header of a response: what is set of it.
pub record Header : Type 0 where
  pub correlation_id : Option Text
  pub allows_origin : Bool

-- `writes` are the statuses that WriteHeader was called with, in order; the first call sends the header
-- as it is then, and what is set later only changes `header`.
pub record Reply : Type 0 where
  pub writes : List ℕ
  pub header : Header
  pub sent : Option Header

-- The header that the client gets: without a call of WriteHeader it is sent at the end.
unfoldable pub delivered : Reply → Header
delivered reply = elim reply.sent [ none ↦ reply.header | some header ↦ header ]

pub record Handled : Type 0 where
  pub reply : Reply
  pub correlation_id : Text
  pub lines : List Line

abbrev pub Handler : Type 0
Handler = Header → Request → Handled

-- The status of a responseRecorder after calls of WriteHeader
unfoldable pub recorded : ℕ → List ℕ → ℕ
recorded status [] = status
recorded status (s ∷ ss) = recorded s ss

unfoldable pub level_of : ℕ → Level
level_of status = if leb 500 status then error else if leb 400 status then warn else info

-- RequestLogger; the duration is left out.
unfoldable pub request_logger : Log → Handler → Handler
request_logger log next header r =
    let h = next header r in
    let id = if is_empty r.context_id then h.correlation_id else r.context_id in
    let status = recorded 200 h.reply.writes in
    record h {
      lines =
          h.lines
          ++ (record {
            level = level_of status;
            log = with_correlation_id log id;
            method = r.method;
            path = r.path;
            status = status;
          }
              ∷ []);
    }
