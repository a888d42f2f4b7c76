-- ===== src/Accounts/Passwords.antt =====
-- `PasswordResetPost`, `PasswordUpdate` and `PasswordUpdatePost` of controllers/main.go. A token is
-- valid for an hour.
pub mod Laws
use hxstakepool.Prelude.{
  ℕ, ◌+◌, String, string_eq, Bool, true, false, not, Option, none, some, if◌then◌else◌, ◌==◌, leb,
}
use hxstakepool.Prelude.{◌<>◌}
use hxstakepool.Accounts.Tables.{
  User, PasswordReset, Db, email_exists, insert_password_reset, password_reset_token_exists,
  user_id_exists, update_user_password_by_id, password_reset_token_delete,
}
use hxstakepool.Accounts.Site.{Site, Request, Web, Reply, page, Mail, add_flash, send_mail}

module _ (s : Site) (r : Request) where
  abbrev pub new_reset : User → PasswordReset
  new_reset user = record {
    user_id = user.id;
    token = r.rand_token;
    created = r.now;
    expires = r.now + 3600;
  }

  abbrev pub reset_mail : User → Mail
  reset_mail user = record {
    address = user.email;
    subject = "Stake pool password reset";
    link = some (s.base_url <> "/passwordupdate?t=" <> r.rand_token);
  }

  abbrev pub reset_sent : Web → Web × Reply
  reset_sent w = (
    add_flash
        ("An email containing password reset instructions has been sent to "
          <> r.form "email"
          <> " if it was a registered account here.")
        "passwordresetSuccess" w,
    page "passwordreset",
  )

  unfoldable pub password_reset_post : Web → Web × Reply
  password_reset_post w =
      if not r.is_valid
      then (add_flash "Recaptcha error" "passwordresetError" w, page "passwordreset")
      else elim (email_exists s.sql w.db (r.form "email")) [
        | none ↦ reset_sent w
        | some user ↦
            let (db2, fine) = insert_password_reset s.sql w.db (new_reset user) in
            if not fine
            then (
              add_flash "Unable to add reset token to database" "passwordresetError" w,
              page "passwordreset",
            )
            else (let (w2, sent) = send_mail s (reset_mail user) (record w { db = db2 }) in
                if sent then reset_sent w2 else (
                  add_flash "Unable to send password reset email" "passwordresetError" w2,
                  page "passwordreset",
                ))
      ]

  -- The page, which judges the token of the request again.
  unfoldable pub password_update : Web → Web × Reply
  password_update w =
      if r.t == ""
      then (
        add_flash "No password update token present" "passwordupdateError" w,
        page "passwordupdate",
      )
      else elim (password_reset_token_exists s.sql w.db r.t) [
        | none ↦ (
          add_flash "Password update token not valid" "passwordupdateError" w,
          page "passwordupdate",
        )
        | some password_reset ↦
            if leb password_reset.expires r.now
            then (
              add_flash "Password update token has expired" "passwordupdateError" w,
              page "passwordupdate",
            )
            else (w, page "passwordupdate")
      ]

  -- From the look-up of the user on.
  unfoldable pub change_password : PasswordReset → Web → Web
  change_password password_reset w = elim (user_id_exists s.sql w.db password_reset.user_id) [
    | none ↦ add_flash "Unable to find User ID" "passwordupdateError" w
    | some user ↦
        let hash = s.hash_password (r.form "password") in
        let (db2, fine) = update_user_password_by_id s.sql w.db password_reset.user_id hash in
        if not fine
        then add_flash "Unable to update password" "passwordupdateError" w
        else (let (db3, deleted) = password_reset_token_delete s.sql db2 r.t in
            add_flash "Password successfully updated" "passwordupdateSuccess"
              (record w { db = db3 }))
  ]

  -- Before the page is rendered.
  unfoldable pub try_password_update : Web → Web
  try_password_update w =
      if r.t == ""
      then add_flash "No password update token present" "passwordupdateError" w
      else elim (password_reset_token_exists s.sql w.db r.t) [
        | none ↦ add_flash "Password update token not valid" "passwordupdateError" w
        | some password_reset ↦
            if leb password_reset.expires r.now
            then add_flash "Password update token has expired" "passwordupdateError" w
            else if r.form "password" == ""
            then add_flash "Password cannot be empty" "passwordupdateError" w
            else if not (r.form "password" == r.form "passwordrepeat")
            then add_flash "Passwords do not match" "passwordupdateError" w
            else change_password password_reset w
      ]

  unfoldable pub password_update_post : Web → Web × Reply
  password_update_post w = password_update (try_password_update w)
