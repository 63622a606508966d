-- ===== src/Task/Effect/Keeps.antt =====
-- Programs that keep a property of the tables, whatever the environment answers, and whose result
-- has a property: the rules by which a handler is checked call by call.
use go_chatgpt_tasks.Base.{◌≡◌, refl, Option, none, some, Text}
use go_chatgpt_tasks.Task.Errors.{Error}
use go_chatgpt_tasks.Task.Transitions.{Outcome}
use go_chatgpt_tasks.Sql.Tables.{Tables}
use go_chatgpt_tasks.Task.Effect.{
  Command, Metric, World, Result, ok, err, Reply, done, refused, lost, M, ◌>>=◌, ◌>>◌, pure, fail,
  try, quietly, with_context, lift, time_now, new_id, statement, query, End, commit, rollback,
  transaction, send, record_metric, after, settle, tock, wrapped, commit_reply, finish, send_reply,
}

-- A property of the value of a result that is no error.
abbrev pub On : {A : Type 0} → (A → Type 0) → Result A → Type 0
On Q (ok a) = Q a
On Q (err e) = Unit

abbrev pub Any : {A : Type 0} → A → Type 0
Any a = Unit

pub Any-On : {A : Type 0} (x : Result A) → On Any x
Any-On (ok a) = tt
Any-On (err e) = tt

-- A property of what a statement returns and leaves, if no constraint refuses it.
abbrev pub OnStatement :
    {A : Type 0} → (Tables → Type 0) → (A → Type 0) → Option (A × Tables) → Type 0
OnStatement P Q none = Unit
OnStatement P Q (some (a, t)) = P t × Q a

abbrev pub OnEnd : {A : Type 0} → (A → Type 0) → End A → Type 0
OnEnd Q (commit a) = Q a
OnEnd Q (rollback a) = Q a

module _ (P : Tables → Type 0) where
  pub record Keeps {A : Type 0} (m : M A) (Q : A → Type 0) : Type 0 where
    pub apply : (w : World) → P w.tables → P (m w).1.tables × On Q (m w).0

  pub keeps_pure : {A : Type 0} {Q : A → Type 0} (a : A) → Q a → Keeps (pure a) Q
  keeps_pure a q = record { apply = λ w h. (h, q) }

  pub keeps_fail : {A : Type 0} {Q : A → Type 0} (e : Error) → Keeps (fail e) Q
  keeps_fail e = record { apply = λ w h. (h, tt) }

  pub keeps_bind :
      {A B : Type 0} {Q : A → Type 0} {R : B → Type 0} (m : M A) (f : A → M B)
      → Keeps m Q
      → ((a : A) → Q a → Keeps (f a) R)
      → Keeps (m >>= f) R
  keeps_bind {A} {B} {Q} {R} m f km kf = record { apply = λ w h. go (m w) (km.apply w h) }
    where
      go :
          (x : Result A × World)
          → P x.1.tables × On Q x.0
          → P (((λ _. x) >>= f) x.1).1.tables × On R (((λ _. x) >>= f) x.1).0
      go (ok a, w') h = (kf a h.1).apply w' h.0
      go (err e, w') h = (h.0, tt)

  pub keeps_then :
      {B : Type 0} {Q : Unit {0} → Type 0} {R : B → Type 0} (m : M (Unit {0})) (k : M B)
      → Keeps m Q
      → Keeps k R
      → Keeps (m >> k) R
  keeps_then m k km kk = keeps_bind m (λ _. k) km (λ _ _. kk)

  pub keeps_lift : {A : Type 0} (o : Outcome A) → Keeps (lift o) (λ a. o ≡ Outcome.ok a)
  unfolding lift
  keeps_lift (Outcome.ok a) = keeps_pure a refl
  keeps_lift (Outcome.err s) = record { apply = λ w h. (h, tt) }

  pub keeps_context :
      {A : Type 0} {Q : A → Type 0} (t : Text) (m : M A) → Keeps m Q → Keeps (with_context t m) Q
  keeps_context {A} {Q} t m km = record { apply = λ w h. go (m w) (km.apply w h) }
    where
      go :
          (x : Result A × World)
          → P x.1.tables × On Q x.0
          → P (with_context t (λ _. x) x.1).1.tables × On Q (with_context t (λ _. x) x.1).0
      go (ok a, w') h = h
      go (err e, w') h = (h.0, tt)

  pub keeps_quietly : {A : Type 0} {Q : A → Type 0} (m : M A) → Keeps m Q → Keeps (quietly m) Any
  keeps_quietly m km = record { apply = λ w h. ((km.apply w h).0, tt) }

  pub keeps_try : {A : Type 0} {Q : A → Type 0} (m : M A) → Keeps m Q → Keeps (try m) (On Q)
  keeps_try m km = record { apply = λ w h. km.apply w h }

  pub keeps_now : Keeps time_now Any
  unfolding time_now
  keeps_now = record { apply = λ w h. (h, tt) }

  pub keeps_id : Keeps new_id Any
  unfolding new_id
  keeps_id = record { apply = λ w h. (h, tt) }

  send_reply_keeps :
      (r : Reply) (c : Command) (w : World)
      → P w.tables
      → P (send_reply r c w).1.tables × On Any (send_reply r c w).0
  send_reply_keeps done c w h = (h, tt)
  send_reply_keeps (refused m) c w h = (h, tt)
  send_reply_keeps (lost m) c w h = (h, tt)

  pub keeps_send : (c : Command) → Keeps (send c) Any
  unfolding send
  keeps_send c = record { apply = λ w h. send_reply_keeps (w.env.reply w.tick) c (tock w) h }

  pub keeps_metric : (m : Metric) → Keeps (record_metric m) Any
  unfolding record_metric
  keeps_metric m = record { apply = λ w h. (h, tt) }

  settle_keeps :
      {A : Type 0} (Q : A → Type 0) (r : Reply) (o : Option (A × Tables)) (w : World)
      → P w.tables
      → OnStatement P Q o
      → P (settle r o w).1.tables × On Q (settle r o w).0
  settle_keeps Q done none w h k = (h, tt)
  settle_keeps Q done (some (a, t)) w h k = k
  settle_keeps Q (refused m) o w h k = (h, tt)
  settle_keeps Q (lost m) none w h k = (h, tt)
  settle_keeps Q (lost m) (some (a, t)) w h k = (k.0, tt)

  pub keeps_statement :
      {A : Type 0} {Q : A → Type 0} (f : Tables → Option (A × Tables))
      → ((t : Tables) → P t → OnStatement P Q (f t))
      → Keeps (statement f) Q
  unfolding statement
  keeps_statement f kf = record {
    apply = λ w h. settle_keeps _ (w.env.reply w.tick) (f w.tables) (tock w) h (kf w.tables h);
  }

  pub keeps_query :
      {A : Type 0} {Q : A → Type 0} (f : Tables → A)
      → ((t : Tables) → P t → Q (f t))
      → Keeps (query f) Q
  unfolding query
  keeps_query f kf = keeps_statement (λ t. some (f t, t)) (λ t h. (h, kf t h))

  commit_reply_keeps :
      {A : Type 0} (Q : A → Type 0) (r : Reply) (a : A) (before : Tables) (w : World)
      → P before
      → P w.tables
      → Q a
      → P (commit_reply r a before w).1.tables × On Q (commit_reply r a before w).0
  commit_reply_keeps Q done a before w h k q = (k, q)
  commit_reply_keeps Q (refused m) a before w h k q = (h, tt)
  commit_reply_keeps Q (lost m) a before w h k q = (k, tt)

  wrapped_keeps :
      {A : Type 0} (Q : A → Type 0) (t : Text) (x : Result A × World)
      → P x.1.tables × On Q x.0
      → P (wrapped t x).1.tables × On Q (wrapped t x).0
  wrapped_keeps Q t (ok a, w) h = h
  wrapped_keeps Q t (err e, w) h = (h.0, tt)

  finish_keeps :
      {A : Type 0} (Q : A → Type 0) (t : Text) (before : Tables) (x : Result (End A) × World)
      → P before
      → P x.1.tables × On (OnEnd Q) x.0
      → P (finish t before x).1.tables × On Q (finish t before x).0
  finish_keeps Q t before (err e, w) h k = (h, tt)
  finish_keeps Q t before (ok (rollback a), w) h k = (h, k.1)
  finish_keeps Q t before (ok (commit a), w) h k =
      wrapped_keeps Q t _ (commit_reply_keeps Q (w.env.reply w.tick) a before (tock w) h k.0 k.1)

  begin_keeps :
      {A : Type 0} {Q : A → Type 0} (t : Text) (m : M (End A))
      → Keeps m (OnEnd Q)
      → (w : World) (x : Result (Unit {0}) × World) → P w.tables
      → P x.1.tables × On Any x.0
      → P (after (λ _ w'. finish t w.tables (m w')) x).1.tables
        × On Q (after (λ _ w'. finish t w.tables (m w')) x).0
  begin_keeps t m km w (ok a, w') h k = finish_keeps _ t w.tables (m w') h (km.apply w' k.0)
  begin_keeps t m km w (err e, w') h k = (k.0, tt)

  pub keeps_transaction :
      {A : Type 0} {Q : A → Type 0} (s t : Text) (m : M (End A))
      → Keeps m (OnEnd Q)
      → Keeps (transaction s t m) Q
  unfolding transaction
  keeps_transaction s t m km = record {
    apply = λ w h.
        begin_keeps t m km w _ h
          (wrapped_keeps Any s _ ((keeps_query (λ _. tt) (λ _ _. tt)).apply w h));
  }
