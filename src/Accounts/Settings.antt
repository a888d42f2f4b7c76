-- ===== src/Accounts/Settings.antt =====
-- `Settings`, `SettingsPost` and `EmailUpdate` of controllers/main.go.
use hxstakepool.Prelude.{ℕ, ◌+◌, string_eq, not, none, some, if◌then◌else◌, ◌==◌, leb}
use hxstakepool.Prelude.{◌<>◌}
use hxstakepool.Accounts.Tables.{
  User, EmailChange, get_user_by_id, set_user_api_token, password_valid_by_id, get_user_by_email,
  insert_email_change, update_user_password_by_id, email_change_token_exists, email_change_complete,
}
use hxstakepool.Accounts.Site.{
  Site, Request, Web, Reply, page, see_other, crash, Mail, add_flash, send_mail,
}

module _ (s : Site) (r : Request) where
  -- The page, which gives the user an API token where there is none.
  unfoldable pub settings : Web → Web × Reply
  settings w = elim w.session [
    | none ↦ (w, see_other "/")
    | some uid ↦ elim (get_user_by_id s.sql w.db uid) [
      | none ↦ (w, crash)
      | some user ↦
          if not (user.api_token == "")
          then (w, page "settings")
          else elim (set_user_api_token s.sql w.db user.id (s.signed_string user.id r.now)) [
            | none ↦ (w, crash)
            | some (db2, fine) ↦
                let w2 =
                  if fine
                  then record w { db = db2 }
                  else add_flash "Unable to set API Token" "settingsError" w in
                elim (get_user_by_id s.sql w2.db uid) [
                  | none ↦ (w2, crash)
                  | some user2 ↦ (w2, page "settings")
                ]
          ]
    ]
  ]

  abbrev pub new_change : User → EmailChange
  new_change user = record {
    user_id = user.id;
    new_email = r.form "email";
    token = r.rand_token;
    created = r.now;
    expires = r.now + 3600;
  }

  abbrev pub change_mail : Mail
  change_mail = record {
    address = r.form "email";
    subject = "Stake pool email change";
    link = some (s.base_url <> "/emailupdate?t=" <> r.rand_token);
  }

  abbrev pub change_notice : User → Mail
  change_notice user = record {
    address = user.email;
    subject = "Stake pool email change";
    link = none;
  }

  abbrev pub password_notice : User → Mail
  password_notice user = record {
    address = user.email;
    subject = "Stake pool password change";
    link = none;
  }

  -- Where `updateEmail` is "true", before the page is rendered.
  unfoldable pub ask_email_change : User → Web → Web
  ask_email_change user w =
      if not r.is_valid
      then add_flash "Recaptcha error" "settingsError" w
      else elim (get_user_by_email s.sql w.db (r.form "email")) [
        | some user_exists ↦ add_flash "Email address in use" "settingsError" w
        | none ↦
            let (db2, fine) = insert_email_change s.sql w.db (new_change user) in
            if not fine
            then add_flash "Unable to add email change token to database" "settingsError" w
            else (let (w2, sent) = send_mail s change_mail (record w { db = db2 }) in
                let w3 =
                  if sent
                  then add_flash "Verification token sent to new email address" "settingsSuccess" w2
                  else add_flash "Unable to send email change token." "settingsError" w2 in
                (send_mail s (change_notice user) w3).0)
      ]

  -- Where `updatePassword` is "true", before the page is rendered.
  unfoldable pub set_password : User → Web → Web
  set_password user w =
      if not (r.form "newpassword" == r.form "newpasswordrepeat")
      then add_flash "Passwords do not match" "settingsError" w
      else (let hash = s.hash_password (r.form "newpassword") in
          let (db2, fine) = update_user_password_by_id s.sql w.db user.id hash in
          if not fine
          then add_flash "Unable to update password" "settingsError" w
          else add_flash "Password successfully updated" "settingsSuccess"
              (send_mail s (password_notice user) (record w { db = db2 })).0)

  -- From the test of the password on, before the page is rendered.
  unfoldable pub change_settings : (uid : ℕ) → Web → Web
  change_settings uid w = elim (password_valid_by_id s.sql s.matches w.db uid (r.form "password")) [
    | none ↦ add_flash "Password not valid" "settingsError" w
    | some user ↦
        if r.form "updateEmail" == "true"
        then ask_email_change user w
        else if r.form "updatePassword" == "true"
        then set_password user w
        else w
  ]

  unfoldable pub settings_post : Web → Web × Reply
  settings_post w = elim w.session [
    | none ↦ (w, see_other "/")
    | some uid ↦ settings (change_settings uid w)
  ]

  -- From the completion of the change on.
  unfoldable pub complete_change : Web → Web
  complete_change w =
      let (db2, fine) = email_change_complete s.sql w.db r.t in
      if not fine
      then add_flash "Error occurred while changing email address" "emailupdateError"
          (record w { db = db2 })
      else add_flash "Email successfully updated" "emailupdateSuccess"
          (record w { db = db2; session = none })

  unfoldable pub email_update : Web → Web × Reply
  email_update w =
      if r.t == ""
      then (
        add_flash "No email verification token present" "emailupdateError" w,
        page "emailupdate",
      )
      else elim (email_change_token_exists s.sql w.db r.t) [
        | none ↦ (
          add_flash "Email verification token not valid" "emailupdateError" w,
          page "emailupdate",
        )
        | some email_change ↦
            if leb email_change.expires r.now
            then (
              add_flash "Email change token has expired" "emailupdateError" w,
              page "emailupdate",
            )
            else elim (get_user_by_email s.sql w.db email_change.new_email) [
              | some user_exists ↦
                  (add_flash "Email address is in use" "emailupdateError" w, page "emailupdate")
              | none ↦ (complete_change w, page "emailupdate")
            ]
      ]
