-- ===== src/Users/Domain.antt =====
-- internal/user/domain.go and dto_internal.go. What unicode.ToLower makes of a character is a
-- parameter.
use go_chatgpt_tasks.Base.{
  ℕ, Bool, false, not, ◌||◌, ◌==◌, if◌then◌else◌, [], ◌∷◌, map, Text, is_empty,
}
use go_chatgpt_tasks.Base.Parse.{trim_space}
use go_chatgpt_tasks.Clock.{Time, time_to_pg}
use go_chatgpt_tasks.Task.Errors.{sentinel, invalid_email, invalid_password, invalid_display_name}
use go_chatgpt_tasks.Task.Domain.{Uuid}
use go_chatgpt_tasks.Task.Effect.{M, ◌>>=◌, pure, fail, time_now, new_id}
use go_chatgpt_tasks.Sql.Tables.{UserRow}

pub record User : Type 0 where
  pub id : Uuid
  pub email : Text
  pub password_hash : Text
  pub display_name : Text
  pub created_at : Time
  pub updated_at : Time

-- strings.Contains, for one character.
abbrev pub has_char : ℕ → Text → Bool
has_char c [] = false
has_char c (x ∷ s) = x == c || has_char c s

-- strings.ToLower(strings.TrimSpace(s)).
unfoldable pub normalised : (ℕ → ℕ) → Text → Text
normalised lower s = map lower (trim_space s)

-- NewUser on a normalised address.
unfoldable pub checked_user : Text → Text → Text → M User
checked_user email password_hash display_name =
    if is_empty email || not (has_char b'@' email)
    then fail (sentinel invalid_email)
    else if is_empty password_hash
    then fail (sentinel invalid_password)
    else (do
      now ← time_now
      id ← new_id
      pure (record {
        id = id;
        email = email;
        password_hash = password_hash;
        display_name = trim_space display_name;
        created_at = now;
        updated_at = now;
      }))

unfoldable pub new_user : (ℕ → ℕ) → Text → Text → Text → M User
new_user lower email = checked_user (normalised lower email)

-- Rename returns the user as it is then.
unfoldable pub rename : Text → User → M User
rename new_name u =
    if is_empty (trim_space new_name) then fail (sentinel invalid_display_name) else (do
      now ← time_now
      pure (record u { display_name = trim_space new_name; updated_at = now }))

unfoldable pub user_from_sqlc : UserRow → User
user_from_sqlc r = record {
  id = r.id;
  email = r.email;
  password_hash = r.password_hash;
  display_name = r.display_name;
  created_at = r.created_at;
  updated_at = r.updated_at;
}

unfoldable pub user_to_insert_params : User → UserRow
user_to_insert_params u = record {
  id = u.id;
  email = u.email;
  password_hash = u.password_hash;
  display_name = u.display_name;
  created_at = time_to_pg u.created_at;
  updated_at = time_to_pg u.updated_at;
}
