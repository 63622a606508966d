-- ===== src/Sql/Users/Laws.antt =====
-- The unique columns of users: lookups in rows that differ in them.
use go_chatgpt_tasks.Base.{
  ap, ◌≡◌, refl, inl, inr, Bool, true, false, List, [], ◌∷◌, ◌++◌, none, some, Text, text_eq,
  text_eq_refl, arith, Bool-cases,
}
use go_chatgpt_tasks.Task.Domain.{Uuid}
use go_chatgpt_tasks.Sql.Tables.{UserRow, find_where, exists_where}
use go_chatgpt_tasks.Sql.Users.{
  has_user_id, has_email, insert_user, get_user_by_email, get_user_by_id,
}

-- No two rows have an identifier or an address in common.
abbrev pub DistinctUsers : List UserRow → Type 0
DistinctUsers [] = Unit
DistinctUsers (r ∷ rs) =
    (exists_where (has_user_id r.id) rs ≡ false)
    × (exists_where (has_email r.email) rs ≡ false)
    × DistinctUsers rs

text_eq_sym : (s t : Text) → text_eq s t ≡ false → text_eq t s ≡ false
text_eq_sym [] [] h = h
text_eq_sym [] (y ∷ ys) h = refl
text_eq_sym (x ∷ xs) [] h = refl
text_eq_sym (x ∷ xs) (y ∷ ys) h = ground (arith, text_eq_sym xs ys)

exists-append :
    (p : UserRow → Bool) (rs : List UserRow) (row : UserRow)
    → exists_where p rs ≡ false
    → p row ≡ false
    → exists_where p (rs ++ row ∷ []) ≡ false
exists-append p [] row h k = ground arith
exists-append p (x ∷ rs) row h k = ground (arith, exists-append p rs row)

find_where-last :
    (p : UserRow → Bool) (rs : List UserRow) (row : UserRow)
    → exists_where p rs ≡ false
    → p row ≡ true
    → find_where p (rs ++ row ∷ []) ≡ some row
find_where-last p [] row h k = ground arith
find_where-last p (x ∷ rs) row h k = ground (arith, find_where-last p rs row)

DistinctUsers-append :
    (rs : List UserRow) (row : UserRow)
    → DistinctUsers rs
    → exists_where (has_user_id row.id) rs ≡ false
    → exists_where (has_email row.email) rs ≡ false
    → DistinctUsers (rs ++ row ∷ [])
DistinctUsers-append [] row d i e = (refl, refl, tt)
DistinctUsers-append (x ∷ rs) row d i e = (
  exists-append (has_user_id x.id) rs row d.0 (ground arith),
  exists-append (has_email x.email) rs row d.1 (text_eq_sym x.email row.email (ground arith)),
  DistinctUsers-append rs row d.2 (ground arith) (ground arith),
)

-- A row that was inserted.
pub record Inserted (row : UserRow) (before after : List UserRow) : Type 0 where
  pub appended : after ≡ before ++ row ∷ []
  pub by_email : get_user_by_email row.email after ≡ some row
  pub by_id : get_user_by_id row.id after ≡ some row
  pub distinct : DistinctUsers before → DistinctUsers after

-- The table is as before if a unique column is taken.
abbrev pub OnInsert : UserRow → List UserRow → Bool × List UserRow → Type 0
OnInsert row before (true, after) = Inserted row before after
OnInsert row before (false, after) = after ≡ before

pub insert_user-OnInsert :
    (row : UserRow) (users : List UserRow) → OnInsert row users (insert_user row users)
unfolding insert_user get_user_by_email get_user_by_id
insert_user-OnInsert row users = elim (Bool-cases (exists_where (has_user_id row.id) users)) [
  | inl i ↦ rw i refl
  | inr i ↦ elim (Bool-cases (exists_where (has_email row.email) users)) [
    | inl e ↦ rw (i, e) refl
    | inr e ↦
        rw (i, e)
          (record {
            appended = refl;
            by_email = find_where-last (has_email row.email) users row e (text_eq_refl row.email);
            by_id = find_where-last (has_user_id row.id) users row i (ground arith);
            distinct = λ d. DistinctUsers-append users row d i e;
          })
  ]
]

find_where-absent :
    (p : UserRow → Bool) (rs : List UserRow) → exists_where p rs ≡ false → find_where p rs ≡ none
find_where-absent p [] h = refl
find_where-absent p (x ∷ rs) h = ground (arith, find_where-absent p rs)

-- A row is found by its identifier where it is found by its address.
pub get_user-by_id :
    (users : List UserRow) (email : Text) (row : UserRow)
    → DistinctUsers users
    → get_user_by_email email users ≡ some row
    → get_user_by_id row.id users ≡ some row
unfolding get_user_by_email get_user_by_id
get_user-by_id [] email row d h = ground arith
get_user-by_id (x ∷ rs) email row d h = elim (Bool-cases (text_eq x.email email)) [
  | inl e ↦ ground arith
  | inr e ↦ ground (
    arith,
    get_user-by_id rs email row d.2,
    find_where-absent (has_user_id row.id) rs,
    ap (λ (i : Uuid). exists_where (has_user_id i) rs) {x = x.id} {y = row.id},
  )
]
