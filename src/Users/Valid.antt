-- ===== src/Users/Valid.antt =====
-- internal/user: what holds of the table of users, whatever is asked and whatever fails.
use go_chatgpt_tasks.Base.{ℕ, sym, subst, Bool, true, false, List, [], ◌∷◌, All}
use go_chatgpt_tasks.Sql.Tables.{Tables, UserRow}
use go_chatgpt_tasks.Sql.Tables.Laws.{All-append}
use go_chatgpt_tasks.Sql.Users.Laws.{DistinctUsers, OnInsert, insert_user-OnInsert}
use go_chatgpt_tasks.Task.Effect.{World}
use go_chatgpt_tasks.Task.Effect.Keeps.{Any, OnStatement}
use go_chatgpt_tasks.Users.Domain.{User, user_to_insert_params}
use go_chatgpt_tasks.Users.Repo.{with_inserted}
use go_chatgpt_tasks.Users.Service.{UserService}
use go_chatgpt_tasks.Users.Http.{UserRequest, serve_user}
use go_chatgpt_tasks.Users.Writes.{ValidUser, OnSaving, serve_user-Keeps}

abbrev pub ValidUsers : (ℕ → ℕ) → Tables → Type 0
ValidUsers lower t = All (ValidUser lower) t.users × DistinctUsers t.users

saves-ValidUsers : (lower : ℕ → ℕ) (u : User) (t : Tables) → OnSaving lower (ValidUsers lower) u t
saves-ValidUsers lower u t valid h = stored _ (insert_user-OnInsert row t.users)
  where
    row : UserRow
    row = user_to_insert_params u

    stored :
        (x : Bool × List UserRow)
        → OnInsert row t.users x
        → OnStatement (ValidUsers lower) Any (with_inserted t x)
    stored (true, users) i = (
      (
        subst (All (ValidUser lower)) (sym i.appended)
            (All-append (ValidUser lower) t.users (row ∷ []) h.0 (valid, tt)),
        i.distinct h.1,
      ),
      tt,
    )
    stored (false, users) i =
        ((subst (All (ValidUser lower)) (sym i) h.0, subst DistinctUsers (sym i) h.1), tt)

-- Whatever is asked of the handlers of users, and whatever calls fail, every stored user keeps an
-- e-mail address that is some text trimmed and in lower case and has an @, and a password hash, and
-- no two users have an identifier or an address in common, if that holds before.
pub serve_user-ValidUsers :
    (s : UserService) (q : UserRequest) (w : World)
    → ValidUsers s.lower w.tables
    → ValidUsers s.lower (serve_user s q w).1.tables
serve_user-ValidUsers s q w h =
    serve_user-Keeps s (ValidUsers s.lower) (saves-ValidUsers s.lower) q w h
