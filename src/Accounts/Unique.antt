-- ===== src/Accounts/Unique.antt =====
-- No two users share an id or an e-mail address, whatever statements fail: what each change of the
-- table of users keeps.
use hxstakepool.Prelude.{
  ℕ, ◌+◌, ◌<◌, String, string_eq, nat_eq, Bool, true, false, List, [], ◌∷◌, ◌++◌, Option, none,
  some, ◌==◌, ◌≡◌, ◌≢◌, refl, sym, ◌∙◌, ap, subst, arith, All, All-append, Bool-cases, Option-cases,
  inl, inr,
}
use hxstakepool.Accounts.Tables.{
  User, EmailChange, Db, Sql, Statement, get_user_by_email_select, select, only, update, same,
  select_one, get_user_by_email, insert_user_insert, email_change_complete_select,
  email_change_complete_update, email_change_complete_delete, email_verification_complete_update,
  email_change_token_exists_select, update_user_password_by_id_select,
  update_user_password_by_id_update, set_user_api_token_select, set_user_api_token_update,
  insert_user, email_verification_complete, email_change_complete, email_change_token_exists,
  update_user_password_by_id, set_user_api_token,
}
use hxstakepool.Accounts.Rows.{
  Distinct, Absent, All-map, none-Absent, select_sound, only-eq_some, append-Distinct, All-update,
  update-Distinct, update-Distinct_new, All-select,
}

abbrev pub id_of : User → ℕ
id_of u = u.id

module _ (sql : Sql) where
  abbrev pub key_of : User → String
  key_of u = sql.collate u.email

  abbrev pub IsUnique : Db → Type 0
  IsUnique db =
      All (λ (u : User). u.id < db.next_id) db.users
      × Distinct id_of db.users
      × Distinct key_of db.users

  -- Where the look-up does not fail, it finds nothing only where no user has the address.
  pub get_user_by_email-none :
      (db : Db) (email : String)
      → IsUnique db
      → sql.fails get_user_by_email_select ≡ false
      → get_user_by_email sql db email ≡ none
      → Absent key_of (sql.collate email) db.users
  unfolding get_user_by_email select_one
  get_user_by_email-none db email (below, ids, keys) works h =
      none-Absent key_of (sql.collate email) db.users keys (ground (arith, works, h))

  pub insert_user-IsUnique :
      (db : Db) (user : User)
      → IsUnique db
      → Absent key_of (sql.collate user.email) db.users
      → IsUnique (insert_user sql db user).0
  unfolding insert_user
  insert_user-IsUnique db user (below, ids, keys) absent =
      elim (Bool-cases (sql.fails insert_user_insert)) [
        | inl fails ↦
            let same : db ≡ (insert_user sql db user).0 = ground (arith, fails) in
            subst IsUnique same (below, ids, keys)
        | inr works ↦
            let row = record user { id = db.next_id } in
            let db2 = record db { users = db.users ++ (row ∷ []); next_id = db.next_id + 1 } in
            let same : db2 ≡ (insert_user sql db user).0 = ground (arith, works) in
            let fresh =
              All-map {P = λ (u : User). u.id < db.next_id} {Q = λ u. u.id ≢ db.next_id} db.users
                (λ u less. omega (arith, less)) below in
            let below2 =
              All-map {P = λ (u : User). u.id < db.next_id} {Q = λ u. u.id < db.next_id + 1}
                db.users (λ u less. omega (arith, less)) below in
            subst IsUnique same (
              All-append (λ (u : User). u.id < db.next_id + 1) db.users (row ∷ []) below2
                  (omega arith, tt),
              append-Distinct id_of row db.users ids fresh,
              append-Distinct key_of row db.users keys absent,
            )
      ]

  select_one-only :
      {A : Type 0} (statement : Statement) (p : A → Bool) (rows : List A) {row : A}
      → select_one sql statement p rows ≡ some row
      → only (select p rows) ≡ some row
  unfolding select_one
  select_one-only statement p rows h = ground (arith, h)

  select_one-agree :
      {A : Type 0} (statement statement2 : Statement) (p : A → Bool) (rows : List A) {a b : A}
      → select_one sql statement p rows ≡ some a
      → select_one sql statement2 p rows ≡ some b
      → a ≡ b
  unfolding select_one
  select_one-agree statement statement2 p rows h h2 = ground (arith, h, h2)

  pub moved-IsUnique :
      (db db2 : Db) → db.users ≡ db2.users → db.next_id ≡ db2.next_id → IsUnique db → IsUnique db2
  moved-IsUnique db db2 same_users same_next (below, ids, keys) = (
    subst (λ n. All (λ (u : User). u.id < n) db2.users) same_next
        (subst (All (λ (u : User). u.id < db.next_id)) same_users below),
    subst (Distinct id_of) same_users ids,
    subst (Distinct key_of) same_users keys,
  )

  -- The user with an id gets an address that no user has.
  rename-IsUnique :
      (db : Db) (i : ℕ) (email : String)
      → IsUnique db
      → Absent key_of (sql.collate email) db.users
      → IsUnique (record db {
        users = update (λ (u : User). u.id == i) (λ u. record u { email = email }) db.users;
      })
  rename-IsUnique db i email (below, ids, keys) absent =
      let set : User → User = λ u. record u { email = email } in
      let fits : User → Bool = λ u. u.id == i in
      (
        All-update fits set (λ (u : User). u.id < db.next_id) db.users below
            (All-map {P = λ (u : User). u.id < db.next_id}
              {Q = λ (u : User). fits u ≡ true → u.id < db.next_id} db.users (λ u less _. less)
              below),
        update-Distinct id_of fits set db.users
            (All-map {P = λ (u : User). u.id < db.next_id}
              {Q = λ (u : User). fits u ≡ true → id_of (set u) ≡ id_of u} db.users (λ u _ _. refl)
              below)
            ids,
        update-Distinct_new key_of id_of set (sql.collate email) i (λ v. refl) db.users absent keys
            ids,
      )

  -- A row that was found is replaced by one with its id and its address.
  pub replace-IsUnique :
      (db : Db) (i : ℕ) (user row2 : User)
      → IsUnique db
      → only (select (λ (u : User). u.id == i) db.users) ≡ some user
      → row2.id ≡ user.id
      → row2.email ≡ user.email
      → IsUnique (record db { users = update (λ (u : User). u.id == user.id) (λ _. row2) db.users })
  replace-IsUnique db i user row2 (below, ids, keys) found same_id same_email =
      let eq = only-eq_some (select (λ (u : User). u.id == i) db.users) found in
      let (m, at) = select_sound id_of i db.users eq in
      let one : All (λ (u : User). (u.id == i) ≡ true → u ≡ user) db.users =
        All-select (λ u. u ≡ user) (λ (u : User). u.id == i) db.users
          (subst (All (λ (u : User). u ≡ user)) (sym eq) (refl, tt)) in
      let here : (u : User)
          → ((u.id == i) ≡ true → u ≡ user)
          → (u.id == user.id) ≡ true
          → u ≡ user =
        λ u h fits. h (subst (λ j. (u.id == j) ≡ true) at fits) in
      (
        All-update (λ (u : User). u.id == user.id) (λ _. row2) (λ (u : User). u.id < db.next_id)
            db.users below
            (All-map {P = λ (u : User). u.id < db.next_id}
              {Q = λ (u : User). (u.id == user.id) ≡ true → row2.id < db.next_id} db.users
              (λ u less fits. ground (arith, less, same_id, nat_eq.beq_iff u.id user.id, fits))
              below),
        update-Distinct id_of (λ (u : User). u.id == user.id) (λ _. row2) db.users
            (All-map {P = λ (u : User). (u.id == i) ≡ true → u ≡ user}
              {Q = λ (u : User). (u.id == user.id) ≡ true → row2.id ≡ u.id} db.users
              (λ u h fits. same_id ∙ sym (ap id_of (here u h fits))) one)
            ids,
        update-Distinct key_of (λ (u : User). u.id == user.id) (λ _. row2) db.users
            (All-map {P = λ (u : User). (u.id == i) ≡ true → u ≡ user}
              {Q = λ (u : User). (u.id == user.id) ≡ true → sql.collate row2.email ≡ key_of u}
              db.users (λ u h fits. ap sql.collate same_email ∙ sym (ap key_of (here u h fits)))
              one)
            keys,
      )

  pub update_user_password_by_id-IsUnique :
      (db : Db) (id : ℕ) (password : String)
      → IsUnique db
      → IsUnique (update_user_password_by_id sql db id password).0
  unfolding update_user_password_by_id select_one
  update_user_password_by_id-IsUnique db id password unique =
      let found =
        select_one sql update_user_password_by_id_select (λ (u : User). u.id == id) db.users in
      let result = (update_user_password_by_id sql db id password).0 in
      elim (Option-cases found) [
        | inl absent ↦
            let same_db : db ≡ result = ground (arith, absent) in subst IsUnique same_db unique
        | inr (user, is) ↦ elim (Bool-cases (sql.fails update_user_password_by_id_update)) [
          | inl fails ↦
              let same_db : db ≡ result = ground (arith, is, fails) in subst IsUnique same_db unique
          | inr works ↦
              let row2 = record user { password = password } in
              let db2 = record db {
                users = update (λ (u : User). u.id == user.id) (λ _. row2) db.users;
              } in
              let same_db : db2 ≡ result = ground (arith, is, works) in
              subst IsUnique same_db (
                replace-IsUnique db id user row2 unique
                  (select_one-only update_user_password_by_id_select (λ (u : User). u.id == id)
                    db.users is)
                  refl refl)
        ]
      ]

  pub set_user_api_token-IsUnique :
      (db : Db) (id : ℕ) (token : Option String) {db2 : Db} {fine : Bool}
      → IsUnique db
      → set_user_api_token sql db id token ≡ some (db2, fine)
      → IsUnique db2
  unfolding set_user_api_token select_one
  set_user_api_token-IsUnique db id none {db2} unique h =
      let same_db : db ≡ db2 = ground (arith, h) in subst IsUnique same_db unique
  set_user_api_token-IsUnique db id (some token) {db2} unique h =
      let found = select_one sql set_user_api_token_select (λ (u : User). u.id == id) db.users in
      elim (Option-cases found) [
        | inl absent ↦ absurd (ground (arith, absent, h))
        | inr (user, is) ↦ elim (Bool-cases (sql.fails set_user_api_token_update)) [
          | inl fails ↦
              let same_db : db ≡ db2 = ground (arith, is, fails, h) in subst IsUnique same_db unique
          | inr works ↦
              let row2 = record user { api_token = token } in
              let db3 = record db {
                users = update (λ (u : User). u.id == user.id) (λ _. row2) db.users;
              } in
              let same_db : db3 ≡ db2 = ground (arith, is, works, h) in
              subst IsUnique same_db (
                replace-IsUnique db id user row2 unique
                  (select_one-only set_user_api_token_select (λ (u : User). u.id == id) db.users is)
                  refl refl)
        ]
      ]

  pub email_verification_complete-IsUnique :
      (db : Db) (token : String)
      → IsUnique db
      → IsUnique (email_verification_complete sql db token).0
  unfolding email_verification_complete
  email_verification_complete-IsUnique db token (below, ids, keys) =
      elim (Bool-cases (sql.fails email_verification_complete_update)) [
        | inl fails ↦
            let same_db : db ≡ (email_verification_complete sql db token).0 =
              ground (arith, fails) in
            subst IsUnique same_db (below, ids, keys)
        | inr works ↦
            let set : User → User = λ u. record u { email_token = ""; email_verified = 1 } in
            let fits : User → Bool = λ u. same sql u.email_token token in
            let db2 = record db { users = update fits set db.users } in
            let same_db : db2 ≡ (email_verification_complete sql db token).0 =
              ground (arith, works) in
            subst IsUnique same_db (
              All-update fits set (λ (u : User). u.id < db.next_id) db.users below
                  (All-map {P = λ (u : User). u.id < db.next_id}
                    {Q = λ (u : User). fits u ≡ true → u.id < db.next_id} db.users
                    (λ u less _. less) below),
              update-Distinct id_of fits set db.users
                  (All-map {P = λ (u : User). u.id < db.next_id}
                    {Q = λ (u : User). fits u ≡ true → id_of (set u) ≡ id_of u} db.users
                    (λ u _ _. refl) below)
                  ids,
              update-Distinct key_of fits set db.users
                  (All-map {P = λ (u : User). u.id < db.next_id}
                    {Q = λ (u : User). fits u ≡ true → key_of (set u) ≡ key_of u} db.users
                    (λ u _ _. refl) below)
                  keys,
            )
      ]

  pub email_change_complete-IsUnique :
      (db : Db) (token : String) (change : EmailChange)
      → IsUnique db
      → email_change_token_exists sql db token ≡ some change
      → Absent key_of (sql.collate change.new_email) db.users
      → IsUnique (email_change_complete sql db token).0
  unfolding email_change_complete email_change_token_exists select_one
  email_change_complete-IsUnique db token change unique exists absent =
      let fits : EmailChange → Bool = λ c. same sql c.token token in
      let found = select_one sql email_change_complete_select fits db.email_changes in
      let result = (email_change_complete sql db token).0 in
      elim (Option-cases found) [
        | inl none_found ↦
            let same_db : db ≡ result = ground (arith, none_found) in subst IsUnique same_db unique
        | inr (change2, is) ↦
            let one : change2 ≡ change =
              select_one-agree email_change_complete_select email_change_token_exists_select fits
                db.email_changes is exists in
            elim (Bool-cases (sql.fails email_change_complete_update)) [
              | inl fails ↦
                  let same_db : db ≡ result = ground (arith, is, fails) in
                  subst IsUnique same_db unique
              | inr works ↦
                  let users2 =
                    update (λ (u : User). u.id == change2.user_id)
                      (λ u. record u { email = change2.new_email }) db.users in
                  let same_users : users2 ≡ result.users =
                    ground
                      (arith, is, works, Bool-cases (sql.fails email_change_complete_delete)) in
                  let same_next : db.next_id ≡ result.next_id =
                    ground
                      (arith, is, works, Bool-cases (sql.fails email_change_complete_delete)) in
                  let gone =
                    subst (λ c. Absent key_of (sql.collate c.new_email) db.users) (sym one)
                      absent in
                  moved-IsUnique (record db { users = users2 }) result same_users same_next
                    (rename-IsUnique db change2.user_id change2.new_email unique gone)
            ]
      ]
