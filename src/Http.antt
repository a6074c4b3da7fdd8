-- ===== src/Http.antt =====
-- What the services' handlers write (errors.go of each service): a JSON error with its status, a JSON
-- body with its status, a status alone, a redirect, or nothing because the handler panics.
pub mod Mux
use url_shortener_microservi.Prelude.{ℕ, ◌≡◌, ◌≢◌, Text}

pub data Response {ℓ} (Body : Type ℓ) : Type ℓ where
  write_error : ℕ → Text → Response Body
  write_json : ℕ → Body → Response Body
  write_header : ℕ → Response Body
  redirect : ℕ → Text → Response Body
  panics : Response Body

module _ {ℓ} {Body : Type ℓ} where
  pub json-injective :
      {s t : ℕ} {x y : Body} → Response.write_json s x ≡ Response.write_json t y → (s ≡ t) × (x ≡ y)
  json-injective h = (cc, cc)

  pub error-ne-json :
      (status : ℕ) (text : Text) (s : ℕ) (x : Body)
      → Response.write_error status text ≢ Response.write_json s x
  error-ne-json status text s x h = cc
