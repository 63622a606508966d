-- ===== src/Task/NewJob/Valid.antt =====
-- internal/task/domain.go: what NewJob accepts.
use go_chatgpt_tasks.Base.{
  ℕ, ◌≡◌, ◌≢◌, ◌⊎◌, inl, inr, arith, ◌↔◌, refl, sym, Bool, true, false, not, ◌||◌, [], ◌∷◌, Option,
  none, some, Text, codes, is_empty,
}
use go_chatgpt_tasks.Base.Parse.{trim_space}
use go_chatgpt_tasks.Clock.{Time}
use go_chatgpt_tasks.Task.Domain.{
  Uuid, Kind, one_off, recurring, JobType, generic_llm, Status, success, failed, cancelled,
  is_terminal_status, ScheduleSpec, Job,
}
use go_chatgpt_tasks.Task.Errors.{Sentinel}
use go_chatgpt_tasks.Task.Transitions.{Outcome, ok, err, is_nil}
use go_chatgpt_tasks.Task.Recurrence.Location.{Zone}
use go_chatgpt_tasks.Task.Recurrence.{Rule, parse_rule, parse_local_time}
use go_chatgpt_tasks.Task.NewJob.{
  and_also, is_kind, is_no_status, text_or, check_rule, is_parent_clear, job_type_or_default,
  is_generic, found_zone, ensure, job_of, check_job, new_job,
}

-- A result that is no error.
abbrev Succeeds : {A : Type 0} → Outcome A → Type 0
Succeeds {A} o = (a : A) × (o ≡ ok a)

-- A rule and a local time that can be read.
pub Readable : Text → Text → Type 0
Readable rule local_time =
    ((r : Rule) × (parse_rule rule ≡ ok r)) × ((hm : ℕ × ℕ) × (parse_local_time local_time ≡ ok hm))

-- The statuses of a parent that may start a job.
abbrev pub IsFinal : Status → Type 0
IsFinal s = (s ≡ success) ⊎ (s ≡ failed) ⊎ (s ≡ cancelled)

-- A job that may be stored.
pub record ValidJob (load_location : Text → Option Zone) (j : Job) : Type 0 where
  pub of_tenant : j.tenant_id ≢ 0
  pub of_user : j.user_id ≢ 0
  pub described : trim_space j.description ≢ []
  pub of_kind : (j.kind ≡ one_off) ⊎ (j.kind ≡ recurring)
  pub located : (z : Zone) × (load_location j.timezone_id ≡ some z)
  pub scheduled : j.kind ≡ recurring → Readable j.recurrence_rule j.local_time
  pub triggered : (p : Uuid) → j.parent_job_id ≡ some p → IsFinal j.trigger_on_parent_status
  pub untriggered : j.parent_job_id ≡ none → j.trigger_on_parent_status ≡ Status.other []
  pub generic : j.job_type ≡ generic_llm
  pub scoped : j.idempotency_scope ≢ []

IsFinal-of : (s : Status) → is_terminal_status s ≡ true → IsFinal s
IsFinal-of success e = inl refl
IsFinal-of failed e = inr (inl refl)
IsFinal-of cancelled e = inr (inr refl)
IsFinal-of _ e = cc

no_status_of : (s : Status) → is_no_status s ≡ true → s ≡ Status.other []
no_status_of (Status.other []) e = refl
no_status_of (Status.other (c ∷ s)) e = cc
no_status_of _ e = cc

terminal_of : (s : Status) → IsFinal s → is_terminal_status s ≡ true
terminal_of s (inl e) = rw e refl
terminal_of s (inr (inl e)) = rw e refl
terminal_of s (inr (inr e)) = rw e refl

-- The tests on the parent, and on the rule.
clear-IsFinal :
    (o : Option Uuid) (s : Status)
    → is_parent_clear o s ≡ true
    → ((p : Uuid) → o ≡ some p → IsFinal s) × (o ≡ none → s ≡ Status.other [])
clear-IsFinal none s e = (λ p f. cc, λ f. no_status_of s e)
clear-IsFinal (some q) s e = (λ p f. IsFinal-of s e, λ f. cc)

IsFinal-clear :
    (o : Option Uuid) (s : Status)
    → ((p : Uuid) → o ≡ some p → IsFinal s)
    → (o ≡ none → s ≡ Status.other [])
    → is_parent_clear o s ≡ true
IsFinal-clear none s f g = rw (g refl) refl
IsFinal-clear (some p) s f g = terminal_of s (f p refl)

kind_of : (k : Kind) → is_kind k ≡ true → (k ≡ one_off) ⊎ (k ≡ recurring)
kind_of one_off e = inl refl
kind_of recurring e = inr refl
kind_of (Kind.other s) e = cc

is_kind-true : (k : Kind) → (k ≡ one_off) ⊎ (k ≡ recurring) → is_kind k ≡ true
is_kind-true k (inl e) = rw e refl
is_kind-true k (inr e) = rw e refl

and_also-ok :
    {A B : Type 0} (a : Outcome A) (b : Outcome B) (x : B)
    → and_also a b ≡ ok x
    → ((y : A) × (a ≡ ok y)) × (b ≡ ok x)
and_also-ok (ok a) b x e = ((a, refl), e)
and_also-ok (err s) b x e = absurd (err_neq e)
  where
    err_neq : {s : Sentinel} → Outcome.err s ≡ ok x → ⊥
    err_neq q = cc

ensure-ok : (b : Bool) (s : Sentinel) (x : Unit {0}) → ensure b s ≡ ok x → b ≡ true
ensure-ok true s x e = refl
ensure-ok false s x e = cc

found_zone-ok : (o : Option Zone) (x : Unit {0}) → found_zone o ≡ ok x → (z : Zone) × (o ≡ some z)
found_zone-ok none x e = cc
found_zone-ok (some z) x e = (z, refl)

check_rule-Readable :
    (k : Kind) (rule local_time : Text) (x : Unit {0})
    → check_rule k rule local_time ≡ ok x
    → k ≡ recurring
    → Readable rule local_time
unfolding Readable
check_rule-Readable recurring rule local_time x e f =
    let a = and_also-ok _ _ x e in (a.0, (and_also-ok _ _ x a.1).0)
check_rule-Readable one_off rule local_time x e f = cc
check_rule-Readable (Kind.other s) rule local_time x e f = cc

Readable-check_rule :
    (k : Kind) (rule local_time : Text)
    → (k ≡ recurring → Readable rule local_time)
    → check_rule k rule local_time ≡ ok tt
unfolding Readable
Readable-check_rule recurring rule local_time h = rw ((h refl).0.1, (h refl).1.1) refl
Readable-check_rule one_off rule local_time h = refl
Readable-check_rule (Kind.other s) rule local_time h = refl

full : (s : Text) → is_empty s ≡ false → s ≢ []
full [] e = cc
full (c ∷ s) e = ground arith

is_empty-full : (s : Text) → s ≢ [] → is_empty s ≡ false
is_empty-full [] h = ground arith
is_empty-full (c ∷ s) h = refl

module _ (load_location : Text → Option Zone) (id : Uuid) (now : Time) (tenant user : Uuid)
    (description : Text) (schedule : ScheduleSpec) where
  abbrev job : Job
  job = job_of id now tenant user description schedule

  checks-ValidJob :
      (x : Unit {0})
      → check_job load_location tenant user description schedule ≡ ok x
      → ValidJob load_location job
  unfolding check_job
  checks-ValidJob x e =
      let a = and_also-ok _ _ x e in
      let b = and_also-ok _ _ x a.1 in
      let c = and_also-ok _ _ x b.1 in
      let d = and_also-ok _ _ x c.1 in
      let f = and_also-ok _ _ x d.1 in
      let g = and_also-ok _ _ x f.1 in
      let owned = both tenant user (not-true _ (ensure-ok _ _ a.0.0 a.0.1)) in
      let clear = clear-IsFinal _ _ (ensure-ok _ _ g.0.0 g.0.1) in
      record {
        of_tenant = owned.0;
        of_user = owned.1;
        described = full _ (not-true _ (ensure-ok _ _ b.0.0 b.0.1));
        of_kind = kind_of _ (ensure-ok _ _ c.0.0 c.0.1);
        located = found_zone-ok _ d.0.0 d.0.1;
        scheduled = check_rule-Readable _ _ _ f.0.0 f.0.1;
        triggered = clear.0;
        untriggered = clear.1;
        generic = generic_of (job_type_or_default schedule.job_type) (ensure-ok _ _ x g.1);
        scoped = full _ (default-full (codes "job_run") schedule.idempotency_scope refl);
      }
    where
      both : (a b : Uuid) → (is_nil a || is_nil b) ≡ false → (a ≢ 0) × (b ≢ 0)
      both a b e = (ground (arith, e), ground (arith, e))

      not-true : (b : Bool) → not b ≡ true → b ≡ false
      not-true true e = cc
      not-true false e = refl

      generic_of : (t : JobType) → is_generic t ≡ true → t ≡ generic_llm
      generic_of generic_llm e = refl
      generic_of (JobType.other s) e = cc

      default-full : (d s : Text) → is_empty d ≡ false → is_empty (text_or d s) ≡ false
      default-full d [] e = e
      default-full d (c ∷ s) e = refl

  pub new_job-ValidJob :
      (j : Job)
      → new_job load_location id now tenant user description schedule ≡ ok j
      → ValidJob load_location j × (j ≡ job)
  unfolding new_job
  new_job-ValidJob j e =
      let x = and_also-ok _ _ j e in
      (rw (ok_inj x.1) at (checks-ValidJob x.0.0 x.0.1), sym (ok_inj x.1))
    where
      ok_inj : {a b : Job} → Outcome.ok a ≡ ok b → a ≡ b
      ok_inj q = cc

  -- NewJob makes its job exactly when that is a valid one: it has an owner, a description that is not
  -- blank, a known kind, a time zone that can be loaded, if it is recurring a rule and a local time
  -- that can be read, a trigger that is a final status if it has a parent and none if it has not,
  -- the job type of LLM jobs, and a scope of idempotency.
  pub new_job-ok_iff :
      (new_job load_location id now tenant user description schedule ≡ ok job)
      ↔ ValidJob load_location job
  unfolding new_job check_job
  new_job-ok_iff = (
    λ e. let x = (and_also-ok _ _ job e).0 in checks-ValidJob x.0 x.1,
    λ v.
        rw
          (
            nobody tenant user v.of_tenant v.of_user,
            is_empty-full _ v.described,
            is_kind-true _ v.of_kind,
            v.located.1,
            Readable-check_rule _ _ _ v.scheduled,
            IsFinal-clear _ _ v.triggered v.untriggered,
            v.generic,
          )
          refl,
  )
    where
      nobody : (a b : Uuid) → a ≢ 0 → b ≢ 0 → (is_nil a || is_nil b) ≡ false
      nobody a b f g = ground arith
