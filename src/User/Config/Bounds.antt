-- ===== src/User/Config/Bounds.antt =====
-- The bounds of the cost and of the lifetime that services/user-service/config.go reads.
use url_shortener_microservi.Prelude.{
  ℕ, zero, suc, ◌*◌, ◌⊎◌, Bool-cases, leb→le, ◌≤◌, ◌<◌, ◌≡◌, refl, sym, subst, ℤ, pos, negsuc, ◌&&◌,
  bytes, lt→ltb, Option, none, some, ok, leb, if◌then◌else◌, arith, inl, inr, if-cases,
}
use url_shortener_microservi.Environment.{Environment, getenv, check-ok}
use url_shortener_microservi.Url.Shorten.{hour}
use url_shortener_microservi.Url.Handler.{atoi}
use url_shortener_microservi.User.Config.{
  Config, cost_or_default, wrap64, ttl_or_default, read_config, load_config, new_password_hasher,
}

-- A cost that the hasher takes as it is.
pub IsCost : ℤ → Type 0
IsCost c = (n : ℕ) × (c ≡ pos n) × (4 ≤ n) × (n ≤ 12) × (new_password_hasher c ≡ c)

IsCost-kept : (n : ℕ) → 4 ≤ n → n ≤ 12 → IsCost (pos n)
unfolding IsCost new_password_hasher
IsCost-kept n lo hi = (n, refl, lo, hi, ground arith)

cost_or_default-IsCost : (o : Option ℤ) → IsCost (cost_or_default o)
unfolding cost_or_default
cost_or_default-IsCost none = IsCost-kept 12 (omega arith) (omega arith)
cost_or_default-IsCost (some (negsuc n)) = IsCost-kept 12 (omega arith) (omega arith)
cost_or_default-IsCost (some (pos n)) =
    if-cases IsCost (leb 4 n && leb n 12) (λ h. IsCost-kept n (ground arith) (ground arith))
      (λ h. IsCost-kept 12 (omega arith) (omega arith))

wrap64-small : (n : ℕ) → n < 9223372036854775808 → wrap64 n ≡ pos n
unfolding wrap64
wrap64-small n h = ground arith

ttl_or_default-hours :
    (n : ℕ) → 0 < n → n ≤ 2562047 → ttl_or_default (some (pos n)) ≡ pos (n * hour)
unfolding ttl_or_default
ttl_or_default-hours n some_ few =
    rw (lt→ltb 0 n some_, if◌then◌else◌) (wrap64-small (n * hour) (omega arith))

-- A number of BCRYPT_COST from 4 to 12 is the cost, and in its place 12.
pub ReadsCost : Option ℤ → ℤ → Type 0
ReadsCost o c =
    ((n : ℕ) × (o ≡ some (pos n)) × (4 ≤ n) × (n ≤ 12) × (c ≡ pos n))
    ⊎ (((n : ℕ) → o ≡ some (pos n) → 4 ≤ n → n ≤ 12 → ⊥) × (c ≡ pos 12))

pos-injective : {n k : ℕ} → some (pos n) ≡ some (pos k) → n ≡ k
pos-injective h = cc

cost_or_default-ReadsCost : (o : Option ℤ) → ReadsCost o (cost_or_default o)
unfolding cost_or_default ReadsCost
cost_or_default-ReadsCost none = inr ((λ n h. cc), refl)
cost_or_default-ReadsCost (some (negsuc k)) = inr ((λ n h. cc), refl)
cost_or_default-ReadsCost (some (pos k)) =
    if-cases (ReadsCost (some (pos k))) (leb 4 k && leb k 12)
      (λ h. inl (k, refl, ground arith, ground arith, refl))
      (λ h. inr ((λ n same lo hi. let e = pos-injective same in ground arith), refl))

-- No positive number.
pub NotPositive : Option ℤ → Type 0
NotPositive o = (n : ℕ) → o ≡ some (pos n) → n ≡ 0

-- A lifetime of some hours, for what TOKEN_TTL_HOURS reads as: as many as it says, or 24 if
-- it is no positive number; or else the number of hours is more than 64 bits hold in nanoseconds.
pub IsLifetime : Option ℤ → ℤ → Type 0
IsLifetime o t =
    ((n : ℕ) × (0 < n)
      × (n ≤ 2562047)
      × ((o ≡ some (pos n)) ⊎ (NotPositive o × (n ≡ 24)))
      × (t ≡ pos (n * hour)))
    ⊎ ((n : ℕ) × (o ≡ some (pos n)) × (2562047 < n))

ttl_or_default-IsLifetime : (o : Option ℤ) → IsLifetime o (ttl_or_default o)
unfolding ttl_or_default IsLifetime NotPositive
ttl_or_default-IsLifetime none = inl (24, omega arith, omega arith, inr ((λ n h. cc), refl), refl)
ttl_or_default-IsLifetime (some (negsuc k)) =
    inl (24, omega arith, omega arith, inr ((λ n h. cc), refl), refl)
ttl_or_default-IsLifetime (some (pos zero)) =
    inl (24, omega arith, omega arith, inr ((λ n h. sym (pos-injective h)), refl), refl)
ttl_or_default-IsLifetime (some (pos (suc n))) = elim (Bool-cases (leb (suc n) 2562047)) [
  | inl few ↦
      let small = leb→le (suc n) 2562047 few in
      inl (suc n, omega arith, small, inl refl, ttl_or_default-hours (suc n) (omega arith) small)
  | inr many ↦ inr (suc n, refl, ground arith)
]

-- A configuration of user-service has as its cost what BCRYPT_COST says, if that is a number from 4 to
-- 12, and 12 otherwise; NewPasswordHasher keeps it. Its tokens live as many hours as TOKEN_TTL_HOURS
-- says, or 24 if that is no positive number, unless it says more than 2562047.
pub load_config-IsCost :
    (env : Environment) (cfg : Config)
    → load_config env ≡ ok cfg
    → IsCost cfg.bcrypt_cost
      × ReadsCost (atoi (getenv env (bytes "BCRYPT_COST"))) cfg.bcrypt_cost
      × IsLifetime (atoi (getenv env (bytes "TOKEN_TTL_HOURS"))) cfg.token_ttl
unfolding load_config read_config
load_config-IsCost env cfg h =
    let (_, same) = check-ok (read_config env) cfg _ h in
    subst
      (λ (c : Config).
        IsCost c.bcrypt_cost
        × ReadsCost (atoi (getenv env (bytes "BCRYPT_COST"))) c.bcrypt_cost
        × IsLifetime (atoi (getenv env (bytes "TOKEN_TTL_HOURS"))) c.token_ttl)
      same
      (
        cost_or_default-IsCost (atoi (getenv env (bytes "BCRYPT_COST"))),
        cost_or_default-ReadsCost (atoi (getenv env (bytes "BCRYPT_COST"))),
        ttl_or_default-IsLifetime (atoi (getenv env (bytes "TOKEN_TTL_HOURS"))),
      )
