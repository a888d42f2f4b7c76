-- ===== src/Accounts/Tables.antt =====
-- The tables of models/user.go, and the statements of models/user.go and helpers/auth.go on them. A
-- table is a list of rows in the order of their insertion. `SelectOne` of gorp returns an error unless
-- exactly one row fits. The columns of texts have a collation: two texts are equal in a WHERE clause
-- where their keys are. Any statement may fail, and then it changes nothing.
use hxstakepool.Prelude.{
  ℕ, ◌+◌, String, string_eq, nat_eq, Bool, true, false, List, [], ◌∷◌, ◌++◌, Option, none, some,
  if◌then◌else◌, ◌==◌, not,
}

pub record User : Type 0 where
  pub id : ℕ
  pub email : String
  pub username : String
  pub password : String
  pub multi_sig_address : String
  pub multi_sig_script : String
  pub pool_pub_key_addr : String
  pub user_pub_key_addr : String
  pub user_fee_addr : String
  pub height_registered : ℕ
  pub email_verified : ℕ
  pub email_token : String
  pub api_token : String
  pub vote_bits : ℕ
  pub vote_bits_version : ℕ

pub record EmailChange : Type 0 where
  pub user_id : ℕ
  pub new_email : String
  pub token : String
  pub created : ℕ
  pub expires : ℕ

pub record PasswordReset : Type 0 where
  pub user_id : ℕ
  pub token : String
  pub created : ℕ
  pub expires : ℕ

-- `next_id` is the counter of AUTO_INCREMENT for the users. The other keys are never read.
pub record Db : Type 0 where
  pub users : List User
  pub next_id : ℕ
  pub email_changes : List EmailChange
  pub password_resets : List PasswordReset

-- One constructor for each call of gorp, named for the Go function that makes it.
pub data Statement : Type 0 where
  get_user_by_email_select get_user_by_id_select insert_user_insert : Statement
  insert_email_change_insert insert_password_reset_insert : Statement
  email_change_complete_select email_change_complete_update email_change_complete_delete : Statement
  email_change_token_exists_select email_exists_select : Statement
  email_verification_token_exists_select email_verification_complete_update : Statement
  password_reset_token_delete_delete password_reset_token_exists_select : Statement
  password_valid_by_id_select user_id_exists_select login_select : Statement
  update_user_password_by_id_select update_user_password_by_id_update : Statement
  set_user_api_token_select set_user_api_token_update update_user_by_id_select : Statement
  update_user_by_id_update : Statement

-- What the database decides: the key of a text under the collation, and which statements fail.
pub record Sql : Type 0 where
  pub collate : String → String
  pub fails : Statement → Bool

unfoldable pub select {ℓ} : {A : Type ℓ} → (A → Bool) → List A → List A
select p [] = []
select p (row ∷ rows) = let rest = select p rows in if p row then row ∷ rest else rest

abbrev pub only {ℓ} : {A : Type ℓ} → List A → Option A
only [] = none
only (row ∷ []) = some row
only (row ∷ row2 ∷ rows) = none

-- `SET …` on the rows that fit.
unfoldable pub update {ℓ} : {A : Type ℓ} → (A → Bool) → (A → A) → List A → List A
update p set [] = []
update p set (row ∷ rows) = (if p row then set row else row) ∷ update p set rows

module _ (sql : Sql) where
  -- `column = ?`
  abbrev pub same : String → String → Bool
  same a b = sql.collate a == sql.collate b

  unfoldable pub select_one {ℓ} : {A : Type ℓ} → Statement → (A → Bool) → List A → Option A
  unfolding select
  select_one statement p rows = if sql.fails statement then none else only (select p rows)

  -- `GetUserByEmail`, which returns nil for every error.
  unfoldable pub get_user_by_email : Db → (email : String) → Option User
  get_user_by_email db email =
      select_one get_user_by_email_select (λ (u : User). same u.email email) db.users

  unfoldable pub email_exists : Db → (email : String) → Option User
  email_exists db email = select_one email_exists_select (λ (u : User). same u.email email) db.users

  unfoldable pub user_id_exists : Db → (userid : ℕ) → Option User
  user_id_exists db userid =
      select_one user_id_exists_select (λ (u : User). u.id == userid) db.users

  unfoldable pub email_verification_token_exists : Db → (token : String) → Option User
  email_verification_token_exists db token =
      select_one email_verification_token_exists_select (λ (u : User). same u.email_token token)
        db.users

  unfoldable pub email_change_token_exists : Db → (token : String) → Option EmailChange
  email_change_token_exists db token =
      select_one email_change_token_exists_select (λ (c : EmailChange). same c.token token)
        db.email_changes

  unfoldable pub password_reset_token_exists : Db → (token : String) → Option PasswordReset
  password_reset_token_exists db token =
      select_one password_reset_token_exists_select (λ (p : PasswordReset). same p.token token)
        db.password_resets

  -- The table, and whether there was no error.
  unfoldable pub insert_user : Db → User → Db × Bool
  insert_user db user = if sql.fails insert_user_insert then (db, false) else (
    record db {
      users = db.users ++ (record user { id = db.next_id } ∷ []);
      next_id = db.next_id + 1;
    },
    true,
  )

  unfoldable pub insert_email_change : Db → EmailChange → Db × Bool
  insert_email_change db change =
      if sql.fails insert_email_change_insert
      then (db, false)
      else (record db { email_changes = db.email_changes ++ (change ∷ []) }, true)

  unfoldable pub insert_password_reset : Db → PasswordReset → Db × Bool
  insert_password_reset db reset =
      if sql.fails insert_password_reset_insert
      then (db, false)
      else (record db { password_resets = db.password_resets ++ (reset ∷ []) }, true)

  unfoldable pub email_verification_complete : Db → (token : String) → Db × Bool
  email_verification_complete db token =
      if sql.fails email_verification_complete_update then (db, false) else (
        record db {
          users =
              update (λ (u : User). same u.email_token token)
                (λ u. record u { email_token = ""; email_verified = 1 }) db.users;
        },
        true,
      )

  unfoldable pub email_change_complete : Db → (token : String) → Db × Bool
  unfolding select_one
  email_change_complete db token =
      elim (select_one email_change_complete_select (λ (c : EmailChange). same c.token token)
        db.email_changes) [
          | none ↦ (db, false)
          | some change ↦
              if sql.fails email_change_complete_update
              then (db, false)
              else (let db2 = record db {
                users =
                    update (λ (u : User). u.id == change.user_id)
                      (λ u. record u { email = change.new_email }) db.users;
              } in
                  if sql.fails email_change_complete_delete then (db2, false) else (
                    record db2 {
                      email_changes =
                          select (λ (c : EmailChange). not (same c.token token)) db2.email_changes;
                    },
                    true,
                  ))
        ]

  unfoldable pub password_reset_token_delete : Db → (token : String) → Db × Bool
  password_reset_token_delete db token =
      if sql.fails password_reset_token_delete_delete then (db, false) else (
        record db {
          password_resets =
              select (λ (p : PasswordReset). not (same p.token token)) db.password_resets;
        },
        true,
      )

  -- `UPDATE Users` of the row that was read, with another password.
  unfoldable pub update_user_password_by_id : Db → (id : ℕ) → (password : String) → Db × Bool
  unfolding select_one
  update_user_password_by_id db id password =
      elim (select_one update_user_password_by_id_select (λ (u : User). u.id == id) db.users) [
        | none ↦ (db, false)
        | some user ↦ if sql.fails update_user_password_by_id_update then (db, false) else (
          record db {
            users =
                update (λ (u : User). u.id == user.id) (λ _. record user { password = password })
                  db.users;
          },
          true,
        )
      ]

  unfoldable pub get_user_by_id : Db → (id : ℕ) → Option User
  get_user_by_id db id = select_one get_user_by_id_select (λ (u : User). u.id == id) db.users

  -- The token that jwt signed, and the row with it. A row that cannot be read is dereferenced before
  -- the error is looked at, which is the outcome `none`.
  unfoldable pub set_user_api_token : Db → (id : ℕ) → (token : Option String) → Option (Db × Bool)
  unfolding select_one
  set_user_api_token db id none = some (db, false)
  set_user_api_token db id (some token) =
      elim (select_one set_user_api_token_select (λ (u : User). u.id == id) db.users) [
        | none ↦ none
        | some user ↦
            if sql.fails set_user_api_token_update
            then some (db, false)
            else some (
              record db {
                users =
                    update (λ (u : User). u.id == user.id) (λ _. record user { api_token = token })
                      db.users;
              },
              true,
            )
      ]

  -- bcrypt's `CompareHashAndPassword` is a parameter.
  module _ (matches : (hash password : String) → Bool) where
    unfoldable pub password_valid_by_id : Db → (id : ℕ) → (password : String) → Option User
    unfolding select_one
    password_valid_by_id db id password =
        elim (select_one password_valid_by_id_select (λ (u : User). u.id == id) db.users) [
          | none ↦ none
          | some user ↦ if matches user.password password then some user else none
        ]

    unfoldable pub login : Db → (email password : String) → Option User
    unfolding select_one
    login db email password =
        elim (select_one login_select (λ (u : User). same u.email email) db.users) [
          | none ↦ none
          | some user ↦ if matches user.password password then some user else none
        ]
