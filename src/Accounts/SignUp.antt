-- ===== src/Accounts/SignUp.antt =====
-- `SignUpPost` and `EmailVerify` of controllers/main.go.
use hxstakepool.Prelude.{string_eq, not, none, some, if◌then◌else◌, ◌==◌}
use hxstakepool.Prelude.{◌<>◌}
use hxstakepool.Accounts.Tables.{
  User, get_user_by_email, insert_user, email_verification_token_exists,
  email_verification_complete,
}
use hxstakepool.Accounts.Site.{
  Site, Request, Web, Reply, page, see_other, Mail, add_flash, send_mail,
}

module _ (s : Site) (r : Request) where
  abbrev pub new_user : User
  new_user = record {
    id = 0;
    email = r.form "email";
    username = r.form "email";
    password = s.hash_password (r.form "password");
    multi_sig_address = "";
    multi_sig_script = "";
    pool_pub_key_addr = "";
    user_pub_key_addr = "";
    user_fee_addr = "";
    height_registered = 0;
    email_verified = 0;
    email_token = r.rand_token;
    api_token = "";
    vote_bits = 1;
    vote_bits_version = s.vote_version;
  }

  abbrev pub signup_mail : Mail
  signup_mail = record {
    address = r.form "email";
    subject = "Stake pool email verification";
    link = some (s.base_url <> "/emailverify?t=" <> r.rand_token);
  }

  -- From the insertion on.
  unfoldable pub register : Web → Web
  register w =
      let (db2, fine) = insert_user s.sql w.db new_user in
      if not fine
      then add_flash "Database error occurred while adding user" "signupError" w
      else (let (w2, sent) = send_mail s signup_mail (record w { db = db2 }) in
          if sent
          then add_flash ("A verification email has been sent to " <> r.form "email")
              "signupSuccess" w2
          else add_flash "Unable to send signup email" "signupError" w2)

  unfoldable pub sign_up_post : Web → Web × Reply
  sign_up_post w =
      if s.close_pool
      then (w, see_other "/error?r=/signup")
      else if not (s.has_at (r.form "email"))
      then (add_flash "email address is invalid" "signupError" w, page "auth/signup")
      else if r.form "password" == ""
      then (add_flash "password cannot be empty" "signupError" w, page "auth/signup")
      else if not (r.form "password" == r.form "passwordrepeat")
      then (add_flash "passwords do not match" "signupError" w, page "auth/signup")
      else if not r.is_valid
      then (add_flash "Recaptcha error" "signupError" w, page "auth/signup")
      else elim (get_user_by_email s.sql w.db (r.form "email")) [
        | some user ↦ (add_flash "User exists" "signupError" w, page "auth/signup")
        | none ↦ (register w, page "auth/signup")
      ]

  unfoldable pub email_verify : Web → Web × Reply
  email_verify w =
      if r.t == ""
      then (
        add_flash "No email verification token present" "emailverifyError" w,
        page "emailverify",
      )
      else elim (email_verification_token_exists s.sql w.db r.t) [
        | none ↦ (
          add_flash "Email verification token not valid" "emailverifyError" w,
          page "emailverify",
        )
        | some user ↦
            let (db2, fine) = email_verification_complete s.sql w.db r.t in
            if fine
            then (
              add_flash "Email successfully verified" "emailverifySuccess" (record w { db = db2 }),
              page "emailverify",
            )
            else (
              add_flash "Unable to set email to verified status" "emailverifyError" w,
              page "emailverify",
            )
      ]
