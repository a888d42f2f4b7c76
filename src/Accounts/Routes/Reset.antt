-- ===== src/Accounts/Routes/Reset.antt =====
-- A forgotten password: the request for a token, the new password, and the next session.
use hxstakepool.Prelude.{
  ◌+◌, ◌<◌, String, string_eq, nat_eq, Bool, true, false, [], ◌∷◌, ◌++◌, none, some, ◌≡◌, ◌≢◌, refl,
  sym, ◌∙◌, ap, subst, arith, Member, ◌==◌,
}
use hxstakepool.Accounts.Tables.{
  User, PasswordReset, Db, Statement, get_user_by_email_select, login_select, email_exists_select,
  insert_password_reset_insert, password_reset_token_exists_select, user_id_exists_select,
  update_user_password_by_id_select, update_user_password_by_id_update, select, update, same,
  select_one, email_exists, user_id_exists, insert_password_reset, password_reset_token_exists,
  update_user_password_by_id, password_reset_token_delete,
}
use hxstakepool.Accounts.Site.{Site, Request, Web}
use hxstakepool.Accounts.Passwords.{
  new_reset, password_reset_post, change_password, try_password_update, password_update_post,
}
use hxstakepool.Accounts.Passwords.Laws.{token_of, password_update-db}
use hxstakepool.Accounts.SignIn.Laws.{sign_in_post_iff}
use hxstakepool.Accounts.Rows.{Absent, only-Member, select-append, select-Absent, Member-update}
use hxstakepool.Accounts.Unique.{IsUnique, key_of, id_of}
use hxstakepool.Accounts.Routes.{
  post_passwordreset, post_passwordupdate, post_signin, handle, serve,
}
use hxstakepool.Accounts.Routes.Unique.{handle-Keeps}

module _ (s : Site) (works : (statement : Statement) → s.sql.fails statement ≡ false) where
  password_reset_post-db :
      (r : Request) (w : Web) (u : User)
      → IsUnique s.sql w.db
      → Member u w.db.users
      → s.sql.collate u.email ≡ s.sql.collate (r.form "email")
      → r.is_valid ≡ true
      → (password_reset_post s r w).0.db
        ≡ record w.db { password_resets = w.db.password_resets ++ (new_reset s r u ∷ []) }
  unfolding password_reset_post insert_password_reset email_exists select_one
  password_reset_post-db r w u (below, ids, keys) m key human =
      let one =
        only-Member (key_of s.sql) (s.sql.collate (r.form "email")) u w.db.users keys m key in
      ground (arith, works email_exists_select, works insert_password_reset_insert, one, human)

  token-found :
      (db : Db) (p : PasswordReset) (token : String)
      → Absent (token_of s.sql) (s.sql.collate token) db.password_resets
      → p.token ≡ token
      → password_reset_token_exists s.sql
          (record db { password_resets = db.password_resets ++ (p ∷ []) })
          token
        ≡ some p
  unfolding password_reset_token_exists select_one select
  token-found db p token absent at =
      let none_before =
        select-Absent (token_of s.sql) (s.sql.collate token) db.password_resets absent in
      let last =
        select-append (λ (q : PasswordReset). same s.sql q.token token) db.password_resets (p ∷ [])
          none_before in
      ground (
        arith,
        last,
        works password_reset_token_exists_select,
        string_eq.beq_iff (s.sql.collate p.token) (s.sql.collate token),
        ap s.sql.collate at,
      )

  change_password-users :
      (r : Request) (p : PasswordReset) (w : Web) (u : User)
      → IsUnique s.sql w.db
      → Member u w.db.users
      → p.user_id ≡ u.id
      → Member
          (record u { password = s.hash_password (r.form "password") })
          (change_password s r p w).db.users
  unfolding change_password update_user_password_by_id password_reset_token_delete user_id_exists
      select_one
  change_password-users r p w u (below, ids, keys) m at =
      let hash = s.hash_password (r.form "password") in
      let one = only-Member id_of p.user_id u w.db.users ids m (sym at) in
      let fits : User → Bool = λ v. v.id == u.id in
      let set : User → User = λ _. record u { password = hash } in
      let eq : update fits set w.db.users ≡ (change_password s r p w).db.users = ground (
        arith,
        one,
        works user_id_exists_select,
        works update_user_password_by_id_select,
        works update_user_password_by_id_update,
      ) in
      let m2 = Member-update fits set u w.db.users m in
      subst (Member (record u { password = hash })) eq (
        subst (λ v. Member v (update fits set w.db.users))
          (ground (arith, nat_eq.beq_iff u.id u.id)) m2)

  try_password_update-users :
      (r : Request) (p : PasswordReset) (w : Web) (u : User)
      → IsUnique s.sql w.db
      → Member u w.db.users
      → password_reset_token_exists s.sql w.db r.t ≡ some p
      → p.user_id ≡ u.id
      → r.now < p.expires
      → r.t ≢ ""
      → r.form "password" ≢ ""
      → r.form "password" ≡ r.form "passwordrepeat"
      → Member
          (record u { password = s.hash_password (r.form "password") })
          (password_update_post s r w).0.db.users
  unfolding password_update_post try_password_update
  try_password_update-users r p w u unique m is at live token some_text twice =
      let eq : (change_password s r p w).db ≡ (try_password_update s r w).db = ground (
        arith,
        is,
        live,
        string_eq.beq_iff r.t "",
        token,
        string_eq.beq_iff (r.form "password") "",
        some_text,
        string_eq.beq_iff (r.form "password") (r.form "passwordrepeat"),
        twice,
      ) in
      let all = eq ∙ password_update-db s r (try_password_update s r w) in
      subst
        (λ (d : Db). Member (record u { password = s.hash_password (r.form "password") }) d.users)
        all (change_password-users r p w u unique m at)

-- Where no statement fails, a user who has confirmed the address, asks for a reset, follows the link
-- within the hour with a new password, given twice and not empty, and signs in with it has the session
-- of that user, if the token is neither empty nor that of another reset in the table, and bcrypt
-- accepts the new password for its own hash.
pub serve-reset :
    (s : Site) (ask change sign_in : Request) (w : Web) (u : User)
    → ((statement : Statement) → s.sql.fails statement ≡ false)
    → IsUnique s.sql w.db
    → Member u w.db.users
    → u.email_verified ≢ 0
    → s.sql.collate u.email ≡ s.sql.collate (ask.form "email")
    → ask.is_valid ≡ true
    → change.t ≡ ask.rand_token
    → change.t ≢ ""
    → Absent (token_of s.sql) (s.sql.collate change.t) w.db.password_resets
    → change.now < ask.now + 3600
    → change.form "password" ≢ ""
    → change.form "password" ≡ change.form "passwordrepeat"
    → s.sql.collate u.email ≡ s.sql.collate (sign_in.form "email")
    → s.matches (s.hash_password (change.form "password")) (sign_in.form "password") ≡ true
    → (serve s
        ((none, post_passwordreset ask)
          ∷ (none, post_passwordupdate change)
          ∷ (none, post_signin sign_in)
          ∷ [])
        w).session
      ≡ some u.id
unfolding serve handle
serve-reset s ask change sign_in w u works unique m verified key human link token absent live
      some_text twice key2 right =
    let v0 = record w { session = none } in
    let v1 = record (password_reset_post s ask v0).0 { session = none } in
    let v2 = record (password_update_post s change v1).0 { session = none } in
    let asked = password_reset_post-db s works ask v0 u unique m key human in
    let unique1 : IsUnique s.sql v1.db =
      handle-Keeps s (works get_user_by_email_select) (post_passwordreset ask) v0 unique in
    let unique2 : IsUnique s.sql v2.db =
      handle-Keeps s (works get_user_by_email_select) (post_passwordupdate change) v1 unique1 in
    let m1 : Member u v1.db.users = subst (λ (d : Db). Member u d.users) (sym asked) m in
    let found : password_reset_token_exists s.sql v1.db change.t ≡ some (new_reset s ask u) =
      subst (λ d. password_reset_token_exists s.sql d change.t ≡ some (new_reset s ask u))
        (sym asked) (token-found s works w.db (new_reset s ask u) change.t absent (sym link)) in
    let m2 =
      try_password_update-users s works change (new_reset s ask u) v1 u unique1 m1 found refl live
        token some_text twice in
    (sign_in_post_iff s sign_in v2 u.id unique2 (works login_select) refl).1 (
      record u { password = s.hash_password (change.form "password") },
      (m2, key2, right, verified),
      refl,
    )
