-- ===== src/Accounts/SignIn.antt =====
-- `SignInPost` and `Logout` of controllers/main.go.
pub mod Laws
use hxstakepool.Prelude.{
  ℕ, zero, suc, String, string_eq, nat_eq, Option, none, some, if◌then◌else◌, ◌==◌,
}
use hxstakepool.Accounts.Tables.{User, login}
use hxstakepool.Accounts.Site.{Site, Request, Web, Reply, page, see_other, add_flash}

module _ (s : Site) (r : Request) where
  unfoldable pub sign_in_post : Web → Web × Reply
  sign_in_post w = elim (login s.sql s.matches w.db (r.form "email") (r.form "password")) [
    | none ↦ (add_flash "Invalid Email or Password" "auth" w, page "auth/signin")
    | some user ↦
        if user.email_verified == 0
        then (add_flash "You must validate your email address" "auth" w, page "auth/signin")
        else if user.multi_sig_address == ""
        then (record w { session = some user.id }, see_other "/settings")
        else (record w { session = some user.id }, see_other "/tickets")
  ]

abbrev pub logout : Web → Web × Reply
logout w = (record w { session = none }, see_other "/")
