-- ===== src/Gateway/Middleware/Traces.antt =====
-- The correlation id of a request through the chain of gateway/main.go.
use url_shortener_microservi.Prelude.{
  ◌≡◌, ◌≢◌, refl, true, false, Text, bytes, [], ◌∷◌, ◌++◌, Option, none, some, text_eq, is_empty,
  if◌then◌else◌, Bool-cases, if-cases, if-both, inl, inr, ◌⊎◌, text_eq→≡,
}
use url_shortener_microservi.Logger.{
  Log, Header, Request, Handled, Handler, delivered, level_of, recorded, with_correlation_id,
  request_logger,
}
use url_shortener_microservi.Gateway.Middleware.{
  encode_to_string, new_correlation_id, correlation_id_middleware, cors_middleware, app,
}

new_correlation_id-present :
    (random : Option Text) → random ≢ some [] → is_empty (new_correlation_id random) ≡ false
unfolding new_correlation_id encode_to_string
new_correlation_id-present none drawn = refl
new_correlation_id-present (some []) drawn = absurd (drawn refl)
new_correlation_id-present (some (b ∷ bs)) drawn = refl

module _ (log : Log) (random : Option Text) (mux : Handler) (header : Header) (r : Request) where
  -- The wrapped handlers get the request with an id in its header and its context, and a response in
  -- whose header the id and the permission for other origins are set.
  abbrev pub inner : Text → Handled
  inner id =
      mux (record { correlation_id = some id; allows_origin = true })
        (record r { correlation_id = id; context_id = id })

  -- One id, that of the client or a fresh one, is given to the handlers, sent to the client and logged
  -- in one line, with the status that the handlers wrote; other origins are allowed.
  pub record Traced (h : Handled) : Type 0 where
    pub id : Text
    pub present : is_empty id ≡ false
    pub source : (id ≡ r.correlation_id) ⊎ (id ≡ new_correlation_id random)
    pub reply : h.reply ≡ (inner id).reply
    pub sent : delivered h.reply ≡ record { correlation_id = some id; allows_origin = true }
    pub lines :
        h.lines
        ≡ (inner id).lines
          ++ (record {
            level = level_of (recorded 200 (inner id).reply.writes);
            log = record log { correlation_id = some id };
            method = r.method;
            path = r.path;
            status = recorded 200 (inner id).reply.writes;
          }
              ∷ [])

  pub record Preflight (h : Handled) : Type 0 where
    pub options : r.method ≡ bytes "OPTIONS"
    pub no_content : h.reply.writes ≡ 204 ∷ []
    pub unlogged : h.lines ≡ []
    pub allowed : (delivered h.reply).allows_origin ≡ true

  preflight : text_eq r.method (bytes "OPTIONS") ≡ true → Preflight (app log random mux header r)
  unfolding app cors_middleware delivered
  preflight options =
      rw (options, if◌then◌else◌)
        (record {
          options = text_eq→≡ r.method (bytes "OPTIONS") options;
          no_content = refl;
          unlogged = refl;
          allowed = refl;
        })

  -- The id that correlationIDMiddleware takes.
  abbrev id_of : Text
  id_of = if is_empty r.correlation_id then new_correlation_id random else r.correlation_id

  id_of-present : random ≢ some [] → is_empty id_of ≡ false
  id_of-present drawn =
      if-cases (λ (id : Text). is_empty id ≡ false) (is_empty r.correlation_id)
        (λ e. new_correlation_id-present random drawn) (λ e. e)

  id_of-source : (id_of ≡ r.correlation_id) ⊎ (id_of ≡ new_correlation_id random)
  id_of-source =
      if-both (λ (id : Text). (id ≡ r.correlation_id) ⊎ (id ≡ new_correlation_id random))
        (is_empty r.correlation_id) (inr refl) (inl refl)

  -- Behind corsMiddleware.
  abbrev behind : Handled
  behind =
      request_logger log (correlation_id_middleware random mux)
        (record header { allows_origin = true }) r

  traced-lines :
      is_empty id_of ≡ false
      → r.context_id ≡ []
      → (inner id_of).correlation_id ≡ id_of
      → behind.lines
        ≡ (inner id_of).lines
          ++ (record {
            level = level_of (recorded 200 (inner id_of).reply.writes);
            log = record log { correlation_id = some id_of };
            method = r.method;
            path = r.path;
            status = recorded 200 (inner id_of).reply.writes;
          }
              ∷ [])
  unfolding request_logger correlation_id_middleware with_correlation_id
  traced-lines present fresh kept = rw (fresh, kept, present, if◌then◌else◌) refl

  -- A request to the gateway, which comes without an id in its context, is traced, or it is a preflight:
  -- an OPTIONS request, which is answered 204 with the permission for other origins and is neither
  -- logged nor given to the handlers. What is set in the response's header after the handlers have
  -- written is lost; this is for handlers that leave both headers as they are, and send the one of the
  -- response as they were given it; and the random bytes that are read are not none.
  pub app-Traced :
      random ≢ some []
      → r.context_id ≡ []
      → ((w : Header) (q : Request) → (mux w q).correlation_id ≡ q.correlation_id)
      → ((w : Header) (q : Request) → delivered (mux w q).reply ≡ w)
      → Preflight (app log random mux header r) ⊎ Traced (app log random mux header r)
  unfolding app cors_middleware request_logger correlation_id_middleware
  app-Traced drawn fresh keeps sends = elim (Bool-cases (text_eq r.method (bytes "OPTIONS"))) [
    | inl options ↦ inl (preflight options)
    | inr other ↦ inr (
        rw (other, if◌then◌else◌)
          (record {
            id = id_of;
            present = id_of-present drawn;
            source = id_of-source;
            reply = refl;
            sent = sends _ _;
            lines = traced-lines (id_of-present drawn) fresh (keeps _ _);
          }))
  ]
