-- ===== src/Platform/Config/Usable.antt =====
-- internal/platform/config/config.go: the configurations that are accepted.
use go_chatgpt_tasks.Base.{
  ℕ, zero, suc, refl, ◌≡◌, ◌≢◌, ◌↔◌, ap, subst, Bool, true, false, List, [], ◌∷◌, Option, none,
  some, if◌then◌else◌, Text, is_empty, arith,
}
use go_chatgpt_tasks.Base.Int.{ℤ, pos, negsuc, ltb_ℤ}
use go_chatgpt_tasks.Task.Errors.{Error}
use go_chatgpt_tasks.Task.Effect.{Result, ok, err}
use go_chatgpt_tasks.Platform.Config.{
  AppSettings, Viper, validate, settings, accepted_settings, unless, load,
}

-- A database to connect to, a secret to sign with where tokens are issued, and a worker at least.
pub Usable : Bool → AppSettings → Type 0
Usable require_jwt c =
    (c.db.dsn ≢ [])
    × (require_jwt ≡ true → c.jwt.secret ≢ [])
    × (n : ℕ) × (c.task.worker_count ≡ pos (suc n))

is_empty-false : (s : Text) → s ≢ [] → is_empty s ≡ false
is_empty-false [] h = ground arith
is_empty-false (x ∷ xs) h = refl

validate-Usable : (j : Bool) (c : AppSettings) → Usable j c → validate j c ≡ none
unfolding validate Usable
validate-Usable true c (dsn, secret, n, workers) =
    rw (is_empty-false c.db.dsn dsn, is_empty-false c.jwt.secret (secret refl), workers)
      (ground arith)
validate-Usable false c (dsn, secret, n, workers) =
    rw (is_empty-false c.db.dsn dsn, workers) (ground arith)

not_empty : (s : Text) → is_empty s ≡ false → s ≢ []
not_empty [] h = ground arith
not_empty (x ∷ xs) h = ground arith

workers_of : (n : ℤ) → ltb_ℤ n (pos 1) ≡ false → (m : ℕ) × (n ≡ pos (suc m))
workers_of (pos zero) h = ground arith
workers_of (pos (suc m)) h = (m, refl)
workers_of (negsuc m) h = ground arith

first_false :
    {A : Type 0} (b : Bool) (a : A) (o : Option A)
    → (if b then some a else o) ≡ none
    → (b ≡ false) × (o ≡ none)
first_false true a o h = ground arith
first_false false a o h = (refl, h)

validate-eq-none : (j : Bool) (c : AppSettings) → validate j c ≡ none → Usable j c
unfolding validate Usable
validate-eq-none j c h =
    let (dsn, h1) = first_false _ _ _ h in
    let (secret, h2) = first_false _ _ _ h1 in
    let (workers, _) = first_false _ _ _ h2 in
    let (n, positive) = workers_of c.task.worker_count workers in
    (not_empty c.db.dsn dsn, (λ required. not_empty c.jwt.secret (ground arith)), n, positive)

unless-ok : (o : Option Error) (x c : AppSettings) → unless o x ≡ ok c → (o ≡ none) × (x ≡ c)
unless-ok none x c h = (refl, ground arith)
unless-ok (some e) x c h = ground arith

module _ {V G : Type 0} (v : Viper V G) (bound filled : List (Text × Text) → List (Text × Text))
    (lookup_env : Text → Option Text) where
  -- Whatever viper reads, load returns exactly the configurations that viper unmarshals and that name a
  -- database, have a secret to sign with where one is required, and ask for a worker at least.
  pub load-ok_iff :
      (require_jwt : Bool) (c : AppSettings)
      → (load v bound filled lookup_env require_jwt ≡ ok c)
        ↔ ((v.unmarshal (settings v bound filled lookup_env) ≡ ok c) × Usable require_jwt c)
  unfolding load
  load-ok_iff j c = (
    accepted_settings-ok (v.unmarshal (settings v bound filled lookup_env)),
    λ h. rw (h.0) (ap (λ o. unless o c) (validate-Usable j c h.1)),
  )
    where
      accepted_settings-ok :
          (r : Result AppSettings)
          → accepted_settings v bound filled lookup_env j r ≡ ok c
          → (r ≡ ok c) × Usable j c
      accepted_settings-ok (err e) h = ground arith
      accepted_settings-ok (ok x) h =
          let (accepted, same) = unless-ok (validate j x) x c h in
          (ap ok same, subst (Usable j) same (validate-eq-none j x accepted))
