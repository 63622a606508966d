-- ===== src/Task/Effect/Atomic.antt =====
-- Transactions whose effect is kept as a whole or not at all.
use go_chatgpt_tasks.Base.{◌≡◌, refl, inl, inr, ◌⊎◌, Option, none, some, Text}
use go_chatgpt_tasks.Sql.Tables.{Tables}
use go_chatgpt_tasks.Task.Effect.{
  World, Result, ok, err, Reply, done, refused, lost, M, ◌>>=◌, ◌>>◌, pure, with_context, statement,
  query, settle, tock, wrapped, after, End, commit, rollback, transaction, finish, commit_reply,
}
use go_chatgpt_tasks.Task.Effect.Keeps.{On, Keeps}

-- What holds of the tables if a program succeeds.
abbrev pub Leaves : {A : Type 0} → (Tables → Type 0) → Result A × World → Type 0
Leaves R (ok a, w) = R w.tables
Leaves R (err e, w) = Unit

pub record Leads {A : Type 0} (P : Tables → Type 0) (m : M A) (R : Tables → Type 0) : Type 0 where
  pub apply : (w : World) → P w.tables → Leaves R (m w)

pub leads_then :
    {B : Type 0} {P R S : Tables → Type 0} (m : M (Unit {0})) (k : M B)
    → Leads P m R
    → Leads R k S
    → Leads P (m >> k) S
leads_then {B} {P} {R} {S} m k lm lk = record { apply = λ w h. go (m w) (lm.apply w h) }
  where
    go : (x : Result (Unit {0}) × World) → Leaves R x → Leaves S (after (λ _. k) x)
    go (ok a, w) h = lk.apply w h
    go (err e, w) h = tt

abbrev pub OnSome : {A : Type 0} → (Tables → Type 0) → Option (A × Tables) → Type 0
OnSome R none = Unit
OnSome R (some (a, t)) = R t

pub leads_statement :
    {A : Type 0} {P R : Tables → Type 0} (c : Text) (f : Tables → Option (A × Tables))
    → ((t : Tables) → P t → OnSome R (f t))
    → Leads P (with_context c (statement f)) R
unfolding statement
leads_statement {A} {P} {R} c f h = record {
  apply = λ w p. go (w.env.reply w.tick) (f w.tables) (tock w) (h w.tables p);
}
  where
    go :
        (r : Reply) (o : Option (A × Tables)) (w : World)
        → OnSome R o
        → Leaves R (wrapped c (settle r o w))
    go done none w h = tt
    go done (some (a, t)) w h = h
    go (refused m) o w h = tt
    go (lost m) none w h = tt
    go (lost m) (some (a, t)) w h = tt

pub leads_weaken :
    {A : Type 0} {P R S : Tables → Type 0} (m : M A)
    → Leads P m R
    → ((t : Tables) → R t → S t)
    → Leads P m S
leads_weaken {A} {P} {R} {S} m lm f = record { apply = λ w h. go (m w) (lm.apply w h) }
  where
    go : (x : Result A × World) → Leaves R x → Leaves S x
    go (ok a, w) h = f w.tables h
    go (err e, w) h = tt

-- What does not depend on the tables holds as before.
pub leads_frame :
    {A F : Type 0} {P R : Tables → Type 0} (m : M A)
    → Leads P m R
    → Leads (λ t. P t × F) m (λ t. R t × F)
leads_frame {A} {F} {P} {R} m lm = record { apply = λ w h. go (m w) (lm.apply w h.0) h.1 }
  where
    go : (x : Result A × World) → Leaves R x → F → Leaves (λ t. R t × F) x
    go (ok a, w) h f = (h, f)
    go (err e, w) h f = tt

-- A program in a transaction that commits what it leaves.
abbrev pub Commits : {A : Type 0} → (Tables → Type 0) → Result (End A) × World → Type 0
Commits R (ok (commit a), w) = R w.tables
Commits R (ok (rollback a), w) = ⊥
Commits R (err e, w) = Unit

pub leads-Commits :
    {P R : Tables → Type 0} (m : M (Unit {0}))
    → Leads P m R
    → (w : World) → P w.tables
    → Commits R ((m >> pure (commit tt)) w)
leads-Commits {P} {R} m lm w p = go (m w) (lm.apply w p)
  where
    go :
        (x : Result (Unit {0}) × World)
        → Leaves R x
        → Commits R (after (λ (_ : Unit {0}) w'. (ok (commit tt), w')) x)
    go (ok a, w) h = h
    go (err e, w) h = tt

-- The tables after a call: changed if it succeeds, and if it fails, changed or as before.
abbrev pub AllOrNothing : {A : Type 0} → Tables → (Tables → Type 0) → Result A × World → Type 0
AllOrNothing before R (ok a, w) = R w.tables
AllOrNothing before R (err e, w) = (w.tables ≡ before) ⊎ R w.tables

module _ {A : Type 0} (R : Tables → Type 0) (before : Tables) where
  wrapped-AllOrNothing :
      (c : Text) (x : Result A × World)
      → AllOrNothing before R x
      → AllOrNothing before R (wrapped c x)
  wrapped-AllOrNothing c (ok a, w) h = h
  wrapped-AllOrNothing c (err e, w) h = h

  commit_reply-AllOrNothing :
      (r : Reply) (a : A) (w : World)
      → R w.tables
      → AllOrNothing before R (commit_reply r a before w)
  commit_reply-AllOrNothing done a w h = h
  commit_reply-AllOrNothing (refused m) a w h = inl refl
  commit_reply-AllOrNothing (lost m) a w h = inr h

  finish-AllOrNothing :
      (c : Text) (x : Result (End A) × World)
      → Commits R x
      → AllOrNothing before R (finish c before x)
  finish-AllOrNothing c (ok (commit a), w) h =
      wrapped-AllOrNothing c _ (commit_reply-AllOrNothing (w.env.reply w.tick) a (tock w) h)
  finish-AllOrNothing c (ok (rollback a), w) h = absurd h
  finish-AllOrNothing c (err e, w) h = inl refl

pub transaction-AllOrNothing :
    {A : Type 0} (R : Tables → Type 0) (s c : Text) (body : M (End A)) (w : World)
    → ((w' : World) → w'.tables ≡ w.tables → Commits R (body w'))
    → AllOrNothing w.tables R (transaction s c body w)
unfolding transaction query statement
transaction-AllOrNothing R s c body w h = go (w.env.reply w.tick)
  where
    go :
        (r : Reply)
        → AllOrNothing w.tables R (
            after
              (λ _ w'. finish c w.tables (body w'))
              (wrapped s (settle r (some (tt, w.tables)) (tock w))))
    go done = finish-AllOrNothing R w.tables c _ (h (tock w) refl)
    go (refused m) = inl refl
    go (lost m) = inl refl

pub AllOrNothing-weaken :
    {A : Type 0} (before : Tables) (R S : Tables → Type 0) (x : Result A × World)
    → ((t : Tables) → R t → S t)
    → AllOrNothing before R x
    → AllOrNothing before S x
AllOrNothing-weaken before R S (ok a, w) f h = f w.tables h
AllOrNothing-weaken before R S (err e, w) f (inl same) = inl same
AllOrNothing-weaken before R S (err e, w) f (inr h) = inr (f w.tables h)

module _ (before : Tables) (R : Tables → Type 0) where
  abbrev pub Same : Tables → Type 0
  Same t = t ≡ before

  -- A step that changes no table, then the rest.
  pub then-AllOrNothing :
      {A B : Type 0} {Q : A → Type 0} (m : M A) (f : A → M B)
      → Keeps Same m Q
      → ((a : A) → Q a → (w : World) → w.tables ≡ before → AllOrNothing before R (f a w))
      → (w : World) → w.tables ≡ before
      → AllOrNothing before R ((m >>= f) w)
  then-AllOrNothing {A} {B} {Q} m f km kf w e = go (m w) (km.apply w e)
    where
      go :
          (x : Result A × World)
          → (x.1.tables ≡ before) × On Q x.0
          → AllOrNothing before R (after f x)
      go (ok a, w') h = kf a h.1 w' h.0
      go (err e, w') h = inl h.0

  pub context-AllOrNothing :
      {A B : Type 0} (c : Text) (m : M A) (b : B) (w : World)
      → AllOrNothing before R (m w)
      → AllOrNothing before R ((with_context c m >>= (λ _. pure b)) w)
  context-AllOrNothing {A} c m b w h = go (m w) h
    where
      go :
          (x : Result A × World)
          → AllOrNothing before R x
          → AllOrNothing before R (after (λ _ w'. (ok b, w')) (wrapped c x))
      go (ok a, w') h = h
      go (err e, w') h = h
