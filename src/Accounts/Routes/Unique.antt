-- ===== src/Accounts/Routes/Unique.antt =====
-- Users keep ids and addresses of their own, along every run of requests.
use hxstakepool.Prelude.{
  ℕ, String, false, List, [], ◌∷◌, Option, ◌≡◌, subst, arith, ◌⊎◌, inl, inr, Bool-cases,
  Option-cases, ◌==◌, string_eq,
}
use hxstakepool.Accounts.Tables.{
  User, PasswordReset, Db, get_user_by_email_select, get_user_by_email, insert_user,
  email_verification_token_exists, email_verification_complete, email_exists, insert_password_reset,
  password_reset_token_exists, user_id_exists, update_user_password_by_id,
  password_reset_token_delete, get_user_by_id, set_user_api_token, password_valid_by_id,
  insert_email_change, email_change_token_exists, email_change_complete, login,
}
use hxstakepool.Accounts.Site.{Site, Request, Web}
use hxstakepool.Accounts.SignUp.{new_user, register, sign_up_post, email_verify}
use hxstakepool.Accounts.SignIn.{sign_in_post}
use hxstakepool.Accounts.Passwords.{
  password_reset_post, password_update, change_password, try_password_update, password_update_post,
}
use hxstakepool.Accounts.Passwords.Laws.{password_update-db}
use hxstakepool.Accounts.Settings.{
  settings, ask_email_change, set_password, change_settings, settings_post, complete_change,
  email_update,
}
use hxstakepool.Accounts.Unique.{
  IsUnique, moved-IsUnique, get_user_by_email-none, insert_user-IsUnique,
  update_user_password_by_id-IsUnique, set_user_api_token-IsUnique,
  email_verification_complete-IsUnique, email_change_complete-IsUnique,
}
use hxstakepool.Accounts.Routes.{
  Call, post_signup, get_emailverify, post_signin, get_passwordupdate, post_passwordreset,
  post_passwordupdate, get_settings, post_settings, get_emailupdate, get_logout, handle, serve,
}

module _ (s : Site) (works : s.sql.fails get_user_by_email_select ≡ false) where
  abbrev pub Keeps : Web → Web → Type 0
  Keeps w w2 = IsUnique s.sql w.db → IsUnique s.sql w2.db

  same_db : (w w2 : Web) → w.db ≡ w2.db → Keeps w w2
  same_db w w2 eq = subst (IsUnique s.sql) eq

  register-db :
      (r : Request) (w : Web) → (register s r w).db ≡ (insert_user s.sql w.db (new_user s r)).0
  unfolding register insert_user
  register-db r w = ground arith

  sign_up_post-Keeps : (r : Request) (w : Web) → Keeps w (sign_up_post s r w).0
  unfolding sign_up_post
  sign_up_post-Keeps r w unique =
      elim (Option-cases (get_user_by_email s.sql w.db (r.form "email"))) [
        | inr (user, is) ↦
            let eq : w.db ≡ (sign_up_post s r w).0.db = ground (arith, is) in
            same_db w (sign_up_post s r w).0 eq unique
        | inl free ↦
            let absent = get_user_by_email-none s.sql w.db (r.form "email") unique works free in
            let added = insert_user-IsUnique s.sql w.db (new_user s r) unique absent in
            let either : (w.db ≡ (sign_up_post s r w).0.db)
                ⊎ ((insert_user s.sql w.db (new_user s r)).0 ≡ (sign_up_post s r w).0.db) =
              ground (arith, free, register-db r w) in
            elim either [
              | inl eq ↦ subst (IsUnique s.sql) eq unique
              | inr eq ↦ subst (IsUnique s.sql) eq added
            ]
      ]

  email_verify-Keeps : (r : Request) (w : Web) → Keeps w (email_verify s r w).0
  unfolding email_verify
  email_verify-Keeps r w unique =
      let done = email_verification_complete-IsUnique s.sql w.db r.t unique in
      let either : (w.db ≡ (email_verify s r w).0.db)
          ⊎ ((email_verification_complete s.sql w.db r.t).0 ≡ (email_verify s r w).0.db) =
        ground (
          arith,
          Bool-cases (r.t == ""),
          Option-cases (email_verification_token_exists s.sql w.db r.t),
          Bool-cases (email_verification_complete s.sql w.db r.t).1,
        ) in
      elim either [
        | inl eq ↦ subst (IsUnique s.sql) eq unique
        | inr eq ↦ subst (IsUnique s.sql) eq done
      ]

  sign_in_post-Keeps : (r : Request) (w : Web) → Keeps w (sign_in_post s r w).0
  unfolding sign_in_post
  sign_in_post-Keeps r w =
      let eq : w.db ≡ (sign_in_post s r w).0.db =
        ground
          (arith, Option-cases (login s.sql s.matches w.db (r.form "email") (r.form "password"))) in
      same_db w (sign_in_post s r w).0 eq

  password_reset_post-Keeps : (r : Request) (w : Web) → Keeps w (password_reset_post s r w).0
  unfolding password_reset_post insert_password_reset
  password_reset_post-Keeps r w =
      let cases = Option-cases (email_exists s.sql w.db (r.form "email")) in
      let users : w.db.users ≡ (password_reset_post s r w).0.db.users = ground (arith, cases) in
      let next : w.db.next_id ≡ (password_reset_post s r w).0.db.next_id = ground (arith, cases) in
      moved-IsUnique s.sql w.db (password_reset_post s r w).0.db users next

  token_delete-Keeps :
      (db : Db) (token : String)
      → IsUnique s.sql db
      → IsUnique s.sql (password_reset_token_delete s.sql db token).0
  unfolding password_reset_token_delete
  token_delete-Keeps db token =
      let users : db.users ≡ (password_reset_token_delete s.sql db token).0.users = ground arith in
      let next : db.next_id ≡ (password_reset_token_delete s.sql db token).0.next_id =
        ground arith in
      moved-IsUnique s.sql db (password_reset_token_delete s.sql db token).0 users next

  change_password-Keeps :
      (r : Request) (reset : PasswordReset) (w : Web) → Keeps w (change_password s r reset w)
  unfolding change_password
  change_password-Keeps r reset w unique =
      let hash = s.hash_password (r.form "password") in
      let updated = update_user_password_by_id s.sql w.db reset.user_id hash in
      let done =
        token_delete-Keeps updated.0 r.t
          (update_user_password_by_id-IsUnique s.sql w.db reset.user_id hash unique) in
      let either : (w.db ≡ (change_password s r reset w).db)
          ⊎ ((password_reset_token_delete s.sql updated.0 r.t).0
              ≡ (change_password s r reset w).db) =
        ground
          (arith, Option-cases (user_id_exists s.sql w.db reset.user_id), Bool-cases updated.1) in
      elim either [
        | inl eq ↦ subst (IsUnique s.sql) eq unique
        | inr eq ↦ subst (IsUnique s.sql) eq done
      ]

  try_password_update-Keeps : (r : Request) (w : Web) → Keeps w (try_password_update s r w)
  unfolding try_password_update
  try_password_update-Keeps r w unique =
      elim (Option-cases (password_reset_token_exists s.sql w.db r.t)) [
        | inl absent ↦
            let eq : w.db ≡ (try_password_update s r w).db = ground (arith, absent) in
            same_db w (try_password_update s r w) eq unique
        | inr (reset, is) ↦
            let done = change_password-Keeps r reset w unique in
            let either : (w.db ≡ (try_password_update s r w).db)
                ⊎ ((change_password s r reset w).db ≡ (try_password_update s r w).db) =
              ground (arith, is, Bool-cases (r.t == "")) in
            elim either [
              | inl eq ↦ subst (IsUnique s.sql) eq unique
              | inr eq ↦ subst (IsUnique s.sql) eq done
            ]
      ]

  password_update_post-Keeps : (r : Request) (w : Web) → Keeps w (password_update_post s r w).0
  unfolding password_update_post
  password_update_post-Keeps r w unique =
      same_db (try_password_update s r w) (password_update s r (try_password_update s r w)).0
        (password_update-db s r (try_password_update s r w)) (try_password_update-Keeps r w unique)

  settings-Keeps : (r : Request) (w : Web) → Keeps w (settings s r w).0
  unfolding settings
  settings-Keeps r w unique = elim (Option-cases w.session) [
    | inl out ↦
        let eq : w.db ≡ (settings s r w).0.db = ground (arith, out) in
        same_db w (settings s r w).0 eq unique
    | inr (uid, in_session) ↦ elim (Option-cases (get_user_by_id s.sql w.db uid)) [
      | inl absent ↦
          let eq : w.db ≡ (settings s r w).0.db = ground (arith, in_session, absent) in
          same_db w (settings s r w).0 eq unique
      | inr (user, is) ↦
          let set = set_user_api_token s.sql w.db user.id (s.signed_string user.id r.now) in
          elim (Option-cases set) [
            | inl crashed ↦
                let eq : w.db ≡ (settings s r w).0.db =
                  ground (arith, in_session, is, crashed, Bool-cases (user.api_token == "")) in
                same_db w (settings s r w).0 eq unique
            | inr ((db2, fine), given) ↦
                let done =
                  set_user_api_token-IsUnique s.sql w.db user.id (s.signed_string user.id r.now)
                    unique given in
                let either : (w.db ≡ (settings s r w).0.db) ⊎ (db2 ≡ (settings s r w).0.db) =
                  ground (
                    arith,
                    in_session,
                    is,
                    given,
                    Bool-cases fine,
                    Bool-cases (user.api_token == ""),
                    Option-cases (get_user_by_id s.sql db2 uid),
                    Option-cases (get_user_by_id s.sql w.db uid),
                  ) in
                elim either [
                  | inl eq ↦ subst (IsUnique s.sql) eq unique
                  | inr eq ↦ subst (IsUnique s.sql) eq done
                ]
          ]
    ]
  ]

  ask_email_change-Keeps :
      (r : Request) (user : User) (w : Web) → Keeps w (ask_email_change s r user w)
  unfolding ask_email_change insert_email_change
  ask_email_change-Keeps r user w =
      let cases = Option-cases (get_user_by_email s.sql w.db (r.form "email")) in
      let users : w.db.users ≡ (ask_email_change s r user w).db.users = ground (arith, cases) in
      let next : w.db.next_id ≡ (ask_email_change s r user w).db.next_id = ground (arith, cases) in
      moved-IsUnique s.sql w.db (ask_email_change s r user w).db users next

  set_password-Keeps : (r : Request) (user : User) (w : Web) → Keeps w (set_password s r user w)
  unfolding set_password
  set_password-Keeps r user w unique =
      let hash = s.hash_password (r.form "newpassword") in
      let updated = update_user_password_by_id s.sql w.db user.id hash in
      let done = update_user_password_by_id-IsUnique s.sql w.db user.id hash unique in
      let either : (w.db ≡ (set_password s r user w).db)
          ⊎ (updated.0 ≡ (set_password s r user w).db) =
        ground (arith, Bool-cases updated.1) in
      elim either [
        | inl eq ↦ subst (IsUnique s.sql) eq unique
        | inr eq ↦ subst (IsUnique s.sql) eq done
      ]

  change_settings-Keeps : (r : Request) (uid : ℕ) (w : Web) → Keeps w (change_settings s r uid w)
  unfolding change_settings
  change_settings-Keeps r uid w unique =
      elim (Option-cases (password_valid_by_id s.sql s.matches w.db uid (r.form "password"))) [
        | inl wrong ↦
            let eq : w.db ≡ (change_settings s r uid w).db = ground (arith, wrong) in
            same_db w (change_settings s r uid w) eq unique
        | inr (user, is) ↦
            let changed = ask_email_change-Keeps r user w unique in
            let set = set_password-Keeps r user w unique in
            let either : (w.db ≡ (change_settings s r uid w).db)
                ⊎ (((ask_email_change s r user w).db ≡ (change_settings s r uid w).db)
                    ⊎ ((set_password s r user w).db ≡ (change_settings s r uid w).db)) =
              ground (
                arith,
                is,
                Bool-cases (r.form "updateEmail" == "true"),
                Bool-cases (r.form "updatePassword" == "true"),
              ) in
            elim either [
              | inl eq ↦ subst (IsUnique s.sql) eq unique
              | inr (inl eq) ↦ subst (IsUnique s.sql) eq changed
              | inr (inr eq) ↦ subst (IsUnique s.sql) eq set
            ]
      ]

  settings_post-Keeps : (r : Request) (w : Web) → Keeps w (settings_post s r w).0
  unfolding settings_post
  settings_post-Keeps r w unique = elim (Option-cases w.session) [
    | inl out ↦
        let eq : w.db ≡ (settings_post s r w).0.db = ground (arith, out) in
        same_db w (settings_post s r w).0 eq unique
    | inr (uid, is) ↦
        let eq : (settings s r (change_settings s r uid w)).0.db ≡ (settings_post s r w).0.db =
          ground (arith, is) in
        subst (IsUnique s.sql) eq
          (settings-Keeps r (change_settings s r uid w) (change_settings-Keeps r uid w unique))
  ]

  email_update-Keeps : (r : Request) (w : Web) → Keeps w (email_update s r w).0
  unfolding email_update complete_change
  email_update-Keeps r w unique = elim (Option-cases (email_change_token_exists s.sql w.db r.t)) [
    | inl absent ↦
        let eq : w.db ≡ (email_update s r w).0.db = ground (arith, absent) in
        same_db w (email_update s r w).0 eq unique
    | inr (change, is) ↦ elim (Option-cases (get_user_by_email s.sql w.db change.new_email)) [
      | inr (user, taken) ↦
          let eq : w.db ≡ (email_update s r w).0.db = ground (arith, is, taken) in
          same_db w (email_update s r w).0 eq unique
      | inl free ↦
          let absent = get_user_by_email-none s.sql w.db change.new_email unique works free in
          let done = email_change_complete-IsUnique s.sql w.db r.t change unique is absent in
          let either : (w.db ≡ (email_update s r w).0.db)
              ⊎ ((email_change_complete s.sql w.db r.t).0 ≡ (email_update s r w).0.db) =
            ground (
              arith,
              is,
              free,
              Bool-cases (r.t == ""),
              Bool-cases (email_change_complete s.sql w.db r.t).1,
            ) in
          elim either [
            | inl eq ↦ subst (IsUnique s.sql) eq unique
            | inr eq ↦ subst (IsUnique s.sql) eq done
          ]
    ]
  ]

  pub handle-Keeps : (call : Call) (w : Web) → Keeps w (handle s call w).0
  unfolding handle
  handle-Keeps (post_signup r) w = sign_up_post-Keeps r w
  handle-Keeps (get_emailverify r) w = email_verify-Keeps r w
  handle-Keeps (post_signin r) w = sign_in_post-Keeps r w
  handle-Keeps (get_passwordupdate r) w =
      same_db w (password_update s r w).0 (password_update-db s r w)
  handle-Keeps (post_passwordreset r) w = password_reset_post-Keeps r w
  handle-Keeps (post_passwordupdate r) w = password_update_post-Keeps r w
  handle-Keeps (get_settings r) w = settings-Keeps r w
  handle-Keeps (post_settings r) w = settings_post-Keeps r w
  handle-Keeps (get_emailupdate r) w = email_update-Keeps r w
  handle-Keeps get_logout w = λ unique. unique

-- Where the look-up of users by their address never fails, users that have ids and addresses of
-- their own, the ids below the next one, still do after any run of requests to the account pages,
-- whatever other statements fail.
pub serve-IsUnique :
    (s : Site) (calls : List (Option ℕ × Call)) (w : Web)
    → s.sql.fails get_user_by_email_select ≡ false
    → IsUnique s.sql w.db
    → IsUnique s.sql (serve s calls w).db
unfolding serve
serve-IsUnique s [] w works unique = unique
serve-IsUnique s ((session, call) ∷ calls) w works unique =
    serve-IsUnique s calls (handle s call (record w { session = session })).0 works
      (handle-Keeps s works call (record w { session = session }) unique)
