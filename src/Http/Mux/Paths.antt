-- ===== src/Http/Mux/Paths.antt =====
-- What a request's path and method are where a pattern of http.ServeMux matches.
use url_shortener_microservi.Prelude.{
  ◌≡◌, ◌≢◌, refl, sym, ap₂, ◌∙◌, Text, bytes, List, [], ◌∷◌, some, text_eq, text_eq→≡, if-splits,
  inl, inr, ◌⊎◌, none-ne-some,
}
use url_shortener_microservi.Http.Mux.{literal, match_path}

pub nil-path : (path values : List Text) → match_path [] path ≡ some values → path ≡ []
unfolding match_path
nil-path [] values h = refl
nil-path (s ∷ path) values h = cc

-- A pattern of one literal matches the path of that segment alone.
pub literal-path :
    (t : Text) (path values : List Text)
    → match_path (literal t ∷ []) path ≡ some values
    → path ≡ t ∷ []
unfolding match_path
literal-path t [] values h = cc
literal-path t (s ∷ path) values h = elim (if-splits (text_eq t s) h) [
  | inl (same, rest) ↦ ap₂ (λ x xs. x ∷ xs) (sym (text_eq→≡ t s same)) (nil-path path values rest)
  | inr (other, missing) ↦ absurd (none-ne-some missing)
]

-- A method that is not GET is that of the request.
pub method_of :
    {t : Text} (m method : Text)
    → t ≢ bytes "GET"
    → t ≡ m
    → (m ≡ method) ⊎ ((method ≡ bytes "HEAD") × (m ≡ bytes "GET"))
    → method ≡ t
method_of m method other at (inl same) = sym (at ∙ same)
method_of m method other at (inr (head, get)) = absurd (other (at ∙ get))
