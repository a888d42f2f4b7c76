-- ===== src/Accounts/Routes.antt =====
-- The routes of server.go that lead to the handlers of accounts, and runs of requests.
pub mod Unique
pub mod Reset
pub mod Register
pub mod EmailChange
mod Tests
use hxstakepool.Prelude.{ℕ, List, [], ◌∷◌, Option}
use hxstakepool.Accounts.Site.{Site, Request, Web, Reply}
use hxstakepool.Accounts.SignUp.{sign_up_post, email_verify}
use hxstakepool.Accounts.SignIn.{sign_in_post, logout}
use hxstakepool.Accounts.Passwords.{password_reset_post, password_update, password_update_post}
use hxstakepool.Accounts.Settings.{settings, settings_post, email_update}

-- A request, with the session that its cookie brings.
pub data Call : Type 0 where
  post_signup get_emailverify post_signin get_passwordupdate : Request → Call
  post_passwordreset post_passwordupdate get_settings post_settings get_emailupdate : Request → Call
  get_logout : Call

module _ (s : Site) where
  unfoldable pub handle : Call → Web → Web × Reply
  handle (post_signup r) w = sign_up_post s r w
  handle (get_emailverify r) w = email_verify s r w
  handle (post_signin r) w = sign_in_post s r w
  handle (get_passwordupdate r) w = password_update s r w
  handle (post_passwordreset r) w = password_reset_post s r w
  handle (post_passwordupdate r) w = password_update_post s r w
  handle (get_settings r) w = settings s r w
  handle (post_settings r) w = settings_post s r w
  handle (get_emailupdate r) w = email_update s r w
  handle get_logout w = logout w

  -- One request after another, of any browsers.
  unfoldable pub serve : List (Option ℕ × Call) → Web → Web
  serve [] w = w
  serve ((session, call) ∷ calls) w = serve calls (handle call (record w { session = session })).0
