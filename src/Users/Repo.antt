-- ===== src/Users/Repo.antt =====
-- internal/user/repo_postgres.go.
use go_chatgpt_tasks.Base.{Bool, if◌then◌else◌, List, Option, none, some, Text, codes}
use go_chatgpt_tasks.Task.Errors.{sentinel, user_not_found, email_already_exists}
use go_chatgpt_tasks.Task.Domain.{Uuid}
use go_chatgpt_tasks.Sql.Tables.{Tables, UserRow}
use go_chatgpt_tasks.Sql.Users.{insert_user, get_user_by_email, get_user_by_id}
use go_chatgpt_tasks.Task.Effect.{M, ◌>>=◌, pure, fail, with_context, statement, query}
use go_chatgpt_tasks.Users.Domain.{User, user_from_sqlc, user_to_insert_params}

abbrev pub with_inserted : Tables → Bool × List UserRow → Option (Bool × Tables)
with_inserted t (inserted, users) = some (inserted, record t { users = users })

abbrev pub saved_or_taken : Bool → M (Unit {0})
saved_or_taken inserted = if inserted then pure tt else fail (sentinel email_already_exists)

-- Save. A unique violation is reported as a taken address.
unfoldable pub save_user : User → M (Unit {0})
save_user u =
    with_context (codes "insert user")
      (statement (λ t. with_inserted t (insert_user (user_to_insert_params u) t.users)))
    >>= saved_or_taken

abbrev pub found_user : Option UserRow → M User
found_user none = fail (sentinel user_not_found)
found_user (some r) = pure (user_from_sqlc r)

unfoldable pub find_user_by_id : Uuid → M User
find_user_by_id id =
    with_context (codes "query user by id") (query (λ t. get_user_by_id id t.users)) >>= found_user

unfoldable pub find_user_by_email : Text → M User
find_user_by_email email =
    with_context (codes "query user by email") (query (λ t. get_user_by_email email t.users))
    >>= found_user
