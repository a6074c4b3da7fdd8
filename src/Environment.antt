-- ===== src/Environment.antt =====
-- The environment variables that the config.go of each service reads.
pub mod Secrets
use url_shortener_microservi.Prelude.{
  ℕ, ◌≡◌, ◌≢◌, refl, Bool, true, false, Text, List, [], ◌∷◌, Option, none, some, Result, ok, err,
  is_empty, if◌then◌else◌, inl, inr, if-splits, some_of, ◌||◌, Bool-cases, sym, ap, ◌∙◌,
}

-- os.LookupEnv
abbrev pub Environment : Type 0
Environment = Text → Option Text

or_empty : Option Text → Text
or_empty none = []
or_empty (some v) = v

-- os.Getenv
unfoldable pub getenv : Environment → Text → Text
unfolding or_empty
getenv env key = or_empty (env key)

-- envOrDefault of the services, where an empty value is none
unfoldable pub env_or_default : Environment → Text → Text → Text
env_or_default env key def = if is_empty (getenv env key) then def else getenv env key

-- A variable that must be there, with its value. The error "<key> is required" is the key.
pub record Required : Type 0 where
  pub key : Text
  pub value : Text

abbrev pub required : Text → Text → Required
required key value = record { key = key; value = value }

-- The tests that a configuration has, one after the other.
unfoldable pub check {ℓ} : {A : Type ℓ} → A → List Required → Result Text A
check cfg [] = ok cfg
check cfg (r ∷ rs) = let rest = check cfg rs in if is_empty r.value then err r.key else rest

-- Whether a required variable is missing.
unfoldable pub missing : Required → Bool
missing r = is_empty r.value

-- The tests pass exactly if no variable is missing, and give the configuration.
pub check-ok {ℓ} :
    {A : Type ℓ} (cfg cfg' : A) (rs : List Required)
    → check cfg rs ≡ ok cfg'
    → (some_of missing rs ≡ false) × (cfg ≡ cfg')
unfolding check some_of missing
check-ok cfg cfg' [] h = (refl, cc)
check-ok cfg cfg' (r ∷ rs) h = elim (if-splits (is_empty r.value) h) [
  | inl (_, refused) ↦ absurd (err-ne-ok refused)
  | inr (present, rest) ↦
      let (others, same) = check-ok cfg cfg' rs rest in (rw present others, same)
]
  where
    err-ne-ok : err r.key ≢ ok cfg'
    err-ne-ok q = cc

pub check-passes {ℓ} :
    {A : Type ℓ} (cfg : A) (rs : List Required) → some_of missing rs ≡ false → check cfg rs ≡ ok cfg
unfolding check some_of missing
check-passes cfg [] h = refl
check-passes cfg (r ∷ rs) h = elim (Bool-cases (is_empty r.value)) [
  | inl empty ↦ cc (ap (λ b. b || some_of missing rs) (sym empty) ∙ h)
  | inr present ↦
      rw present (check-passes cfg rs (ap (λ b. b || some_of missing rs) (sym present) ∙ h))
]

-- A variable that stands in the list is not missing where none is.
pub some_of-cons :
    (r : Required) (rs : List Required)
    → some_of missing (r ∷ rs) ≡ false
    → (is_empty r.value ≡ false) × (some_of missing rs ≡ false)
unfolding some_of missing
some_of-cons r rs h = elim (Bool-cases (is_empty r.value)) [
  | inl empty ↦ cc (ap (λ b. b || some_of missing rs) (sym empty) ∙ h)
  | inr present ↦ (present, ap (λ b. b || some_of missing rs) (sym present) ∙ h)
]
