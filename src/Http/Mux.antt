-- ===== src/Http/Mux.antt =====
-- http.ServeMux, as the services' main.go use it: patterns with a method, literal segments and
-- wildcards for one segment. A path is the list of its segments after cleaning, and a trailing slash
-- is the segment "/", which no wildcard matches.
pub mod Paths
use url_shortener_microservi.Prelude.{
  ◌≡◌, refl, Bool, true, false, Text, bytes, List, [], ◌∷◌, Option, none, some, text_eq, some_of,
  map, ◌==◌, ℕ, if◌then◌else◌, if-both, if-cases, inl, inr, All, text_eq→≡, ◌⊎◌,
}

pub data Segment : Type 0 where
  literal : Text → Segment
  wildcard : Segment

-- A byte more at the front of the first piece.
push : ℕ → List Text → List Text
push c [] = (c ∷ []) ∷ []
push c (t ∷ ts) = (c ∷ t) ∷ ts

-- The pieces of a text between its slashes.
unfoldable pub pieces : Text → List Text
unfolding push
pieces [] = [] ∷ []
pieces (c ∷ s) = let rest = pieces s in if c == b'/' then [] ∷ rest else push c rest

named : Text → Text
named [] = bytes "/"
named (c ∷ s) = c ∷ s

-- The segments of a clean path, which begins with a slash.
unfoldable pub segments : Text → List Text
unfolding named
segments [] = []
segments (c ∷ path) = map named (pieces path)

-- A registered pattern with its handler, which is given the values of the wildcards.
pub record Route {ℓ} (A : Type ℓ) : Type ℓ where
  pub method : Text
  pub pattern : List Segment
  pub handler : List Text → A

abbrev pub route {ℓ} : {A : Type ℓ} → Text → List Segment → (List Text → A) → Route A
route method pattern handler = record { method = method; pattern = pattern; handler = handler }

unfoldable pub keep_value : Text → Option (List Text) → Option (List Text)
keep_value s none = none
keep_value s (some values) = some (s ∷ values)

-- The values of the wildcards, if the pattern matches.
unfoldable pub match_path : List Segment → List Text → Option (List Text)
unfolding keep_value
match_path [] [] = some []
match_path [] (s ∷ path) = none
match_path (p ∷ pattern) [] = none
match_path (Segment.literal t ∷ pattern) (s ∷ path) =
    let rest = match_path pattern path in if text_eq t s then rest else none
match_path (Segment.wildcard ∷ pattern) (s ∷ path) =
    let rest = match_path pattern path in if text_eq (bytes "/") s then none else keep_value s rest

-- Whether the first pattern goes before the second: at the first difference it has the literal.
unfoldable pub more_specific : List Segment → List Segment → Bool
more_specific (Segment.literal t ∷ p) (Segment.literal u ∷ q) = more_specific p q
more_specific (Segment.wildcard ∷ p) (Segment.wildcard ∷ q) = more_specific p q
more_specific (Segment.literal t ∷ p) (Segment.wildcard ∷ q) = true
more_specific _ _ = false

-- A pattern that matches, with what its handler answers.
pub record Match {ℓ} (A : Type ℓ) : Type ℓ where
  pub pattern : List Segment
  pub answer : A

module _ {ℓ} {A : Type ℓ} where
  unfoldable pub prefer : Option (Match A) → Option (Match A) → Option (Match A)
  prefer none m = m
  prefer (some m) none = some m
  prefer (some m) (some n) = if more_specific n.pattern m.pattern then some n else some m

  unfoldable pub matched : Route A → Option (List Text) → Option (Match A)
  matched r none = none
  matched r (some values) = some (record { pattern = r.pattern; answer = r.handler values })

  -- The match of one route, for a request with the method.
  unfoldable pub candidate : Text → List Text → Route A → Option (Match A)
  unfolding matched
  candidate method path r =
      let m = matched r (match_path r.pattern path) in if text_eq r.method method then m else none

  -- The most specific match.
  unfoldable pub best : Text → List Text → List (Route A) → Option (Match A)
  best method path [] = none
  best method path (r ∷ rs) = prefer (candidate method path r) (best method path rs)

  unfoldable pub has_path : List Text → Route A → Bool
  has_path path r = elim (match_path r.pattern path) [ none ↦ false | some values ↦ true ]

  unfoldable pub or_else : Option (Match A) → Option (Match A) → Option (Match A)
  or_else none n = n
  or_else (some m) n = some m

  -- A GET pattern serves HEAD too.
  unfoldable pub find : Text → List Text → List (Route A) → Option (Match A)
  unfolding or_else
  find method path rs =
      let head = if text_eq method (bytes "HEAD") then best (bytes "GET") path rs else none in
      or_else (best method path rs) head

  unfoldable pub answer_of : A → Option (Match A) → A
  answer_of other none = other
  answer_of other (some m) = m.answer

  -- ServeMux.ServeHTTP, with http.Error for the answers that it writes itself.
  unfoldable pub serve : (ℕ → Text → A) → List (Route A) → Text → List Text → A
  unfolding has_path answer_of
  serve http_error rs method path =
      let other =
        if some_of (has_path path) rs
        then http_error 405 (bytes "Method Not Allowed")
        else http_error 404 (bytes "404 page not found") in
      answer_of other (find method path rs)

  module _ {κ} (P : A → Type κ) where
    Answered : Option (Match A) → Type κ
    Answered none = Unit
    Answered (some m) = P m.answer

    -- What a route answers to a request that its pattern matches.
    abbrev pub Handles : Text → List Text → Route A → Type κ
    Handles method path r =
        (values : List Text)
        → r.method ≡ method
        → match_path r.pattern path ≡ some values
        → P (r.handler values)

    prefer-Answered : (m n : Option (Match A)) → Answered m → Answered n → Answered (prefer m n)
    unfolding prefer Answered
    prefer-Answered none n h k = k
    prefer-Answered (some m) none h k = h
    prefer-Answered (some m) (some n) h k = if-both Answered (more_specific n.pattern m.pattern) k h

    matched-Answered :
        (r : Route A) (o : Option (List Text))
        → ((values : List Text) → o ≡ some values → P (r.handler values))
        → Answered (matched r o)
    unfolding matched Answered
    matched-Answered r none h = tt
    matched-Answered r (some values) h = h values refl

    candidate-Answered :
        (method : Text) (path : List Text) (r : Route A)
        → Handles method path r
        → Answered (candidate method path r)
    unfolding candidate Answered
    candidate-Answered method path r h =
        if-cases Answered (text_eq r.method method)
          (λ same.
            matched-Answered r (match_path r.pattern path)
              (λ values. h values (text_eq→≡ r.method method same)))
          (λ other. tt)

    best-Answered :
        (method : Text) (path : List Text) (rs : List (Route A))
        → All (Handles method path) rs
        → Answered (best method path rs)
    unfolding best Answered
    best-Answered method path [] h = tt
    best-Answered method path (r ∷ rs) h =
        prefer-Answered (candidate method path r) (best method path rs)
          (candidate-Answered method path r h.0) (best-Answered method path rs h.1)

    or_else-Answered : (m n : Option (Match A)) → Answered m → Answered n → Answered (or_else m n)
    unfolding or_else Answered
    or_else-Answered none n h k = k
    or_else-Answered (some m) n h k = h

    answer_of-Answered :
        (other : A) (m : Option (Match A)) → P other → Answered m → P (answer_of other m)
    unfolding answer_of Answered
    answer_of-Answered other none h k = h
    answer_of-Answered other (some m) h k = k

    -- What every route answers to what it matches, and http.Error, is answered by the ServeMux.
    pub serve-cases :
        (http_error : ℕ → Text → A) (rs : List (Route A)) (method : Text) (path : List Text)
        → ((status : ℕ) (text : Text) → P (http_error status text))
        → ((m : Text)
            → (m ≡ method) ⊎ ((method ≡ bytes "HEAD") × (m ≡ bytes "GET"))
            → All (Handles m path) rs)
        → P (serve http_error rs method path)
    unfolding serve find Answered
    serve-cases http_error rs method path failed h =
        answer_of-Answered _ (find method path rs)
          (if-both P (some_of (has_path path) rs) (failed _ _) (failed _ _))
          (or_else-Answered (best method path rs) _
            (best-Answered method path rs (h method (inl refl)))
            (if-cases Answered (text_eq method (bytes "HEAD"))
              (λ head.
                best-Answered (bytes "GET") path rs
                  (h (bytes "GET") (inr (text_eq→≡ method (bytes "HEAD") head, refl))))
              (λ other. tt)))
