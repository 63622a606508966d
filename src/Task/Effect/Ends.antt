-- ===== src/Task/Effect/Ends.antt =====
-- What holds of the value and of the world when a program ends without an error.
use go_chatgpt_tasks.Base.{Option, some, none, Text}
use go_chatgpt_tasks.Sql.Tables.{Tables}
use go_chatgpt_tasks.Task.Effect.{
  World, Result, ok, err, Reply, done, refused, lost, M, statement, settle, tock, after, wrapped,
}

abbrev pub Ends : {A : Type 0} → (A → World → Type 0) → Result A × World → Type 0
Ends Q (ok a, w) = Q a w
Ends Q (err e, w) = Unit

pub Ends-trivial : {A : Type 0} (x : Result A × World) → Ends (λ _ _. Unit {0}) x
Ends-trivial (ok a, w) = tt
Ends-trivial (err e, w) = tt

pub Ends-after :
    {A B : Type 0} (Q : A → World → Type 0) (R : B → World → Type 0) (f : A → M B)
    (x : Result A × World)
    → Ends Q x
    → ((a : A) (w : World) → Q a w → Ends R (f a w))
    → Ends R (after f x)
Ends-after Q R f (ok a, w) h k = k a w h
Ends-after Q R f (err e, w) h k = tt

pub Ends-wrapped :
    {A : Type 0} (Q : A → World → Type 0) (t : Text) (x : Result A × World)
    → Ends Q x
    → Ends Q (wrapped t x)
Ends-wrapped Q t (ok a, w) h = h
Ends-wrapped Q t (err e, w) h = tt

-- The value and the tables of a statement that is answered.
abbrev pub OnAnswer : {A : Type 0} → (A → Tables → Type 0) → Option (A × Tables) → Type 0
OnAnswer Q none = Unit
OnAnswer Q (some (a, t)) = Q a t

pub Ends-statement :
    {A : Type 0} (Q : A → Tables → Type 0) (f : Tables → Option (A × Tables)) (w : World)
    → OnAnswer Q (f w.tables)
    → Ends (λ a v. Q a v.tables) (statement f w)
unfolding statement
Ends-statement {A} Q f w h = go (w.env.reply w.tick) (f w.tables) (tock w) h
  where
    go :
        (r : Reply) (o : Option (A × Tables)) (w : World)
        → OnAnswer Q o
        → Ends (λ a v. Q a v.tables) (settle r o w)
    go done none w h = tt
    go done (some (a, t)) w h = h
    go (refused m) o w h = tt
    go (lost m) none w h = tt
    go (lost m) (some (a, t)) w h = tt
