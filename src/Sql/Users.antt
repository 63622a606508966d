-- ===== src/Sql/Users.antt =====
-- internal/platform/postgres/sqlc/user.sql.go: the statements on users, which has a primary key and
-- a unique index on the e-mail address.
pub mod Laws
use go_chatgpt_tasks.Base.{
  Bool, true, false, ◌||◌, ◌==◌, if◌then◌else◌, List, [], ◌∷◌, ◌++◌, Option, Text, text_eq,
}
use go_chatgpt_tasks.Clock.{Time}
use go_chatgpt_tasks.Task.Domain.{Uuid}
use go_chatgpt_tasks.Sql.Tables.{UserRow, update_where, find_where, exists_where}

abbrev pub has_user_id : Uuid → UserRow → Bool
has_user_id id r = r.id == id

abbrev pub has_email : Text → UserRow → Bool
has_email email r = text_eq r.email email

-- INSERT INTO users. `false` is a unique violation, the error with the code 23505.
unfoldable pub insert_user : UserRow → List UserRow → Bool × List UserRow
insert_user row users =
    if exists_where (has_user_id row.id) users || exists_where (has_email row.email) users
    then (false, users)
    else (true, users ++ row ∷ [])

unfoldable pub get_user_by_email : Text → List UserRow → Option UserRow
get_user_by_email email = find_where (has_email email)

unfoldable pub get_user_by_id : Uuid → List UserRow → Option UserRow
get_user_by_id id = find_where (has_user_id id)

abbrev renamed_row : Text → Time → UserRow → UserRow
renamed_row display_name updated_at r = record r {
  display_name = display_name;
  updated_at = updated_at;
}

unfoldable pub update_user_display_name : Text → Time → Uuid → List UserRow → List UserRow
update_user_display_name display_name updated_at id =
    update_where (has_user_id id) (renamed_row display_name updated_at)
