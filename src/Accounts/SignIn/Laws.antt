-- ===== src/Accounts/SignIn/Laws.antt =====
-- Who can sign in.
use hxstakepool.Prelude.{
  ℕ, string_eq, nat_eq, Bool, true, false, none, some, ◌≡◌, ◌≢◌, ◌↔◌, arith, Member, Bool-cases,
  Option-cases, ◌==◌, inl, inr,
}
use hxstakepool.Accounts.Tables.{User, login_select, select, only, same, select_one, login}
use hxstakepool.Accounts.Site.{Site, Request, Web}
use hxstakepool.Accounts.SignIn.{sign_in_post}
use hxstakepool.Accounts.Rows.{only-Member, select_sound, only-eq_some}
use hxstakepool.Accounts.Unique.{IsUnique, key_of}

-- The user, in the table, is verified, and has the address and the password of the form.
abbrev pub MaySignIn : Site → Request → Web → User → Type 0
MaySignIn s r w u =
    Member u w.db.users
    × (s.sql.collate u.email ≡ s.sql.collate (r.form "email"))
    × (s.matches u.password (r.form "password") ≡ true)
    × (u.email_verified ≢ 0)

login-finds :
    (s : Site) (r : Request) (w : Web) {u : User}
    → login s.sql s.matches w.db (r.form "email") (r.form "password") ≡ some u
    → Member u w.db.users
      × (s.sql.collate u.email ≡ s.sql.collate (r.form "email"))
      × (s.matches u.password (r.form "password") ≡ true)
unfolding login select_one
login-finds s r w {u} h =
    let fits : User → Bool = λ v. same s.sql v.email (r.form "email") in
    elim (Option-cases (select_one s.sql login_select fits w.db.users)) [
      | inl absent ↦ absurd (ground (arith, h, absent))
      | inr (v, is) ↦
          let found : only (select fits w.db.users) ≡ some u =
            ground (arith, h, is, Bool-cases (s.matches v.password (r.form "password"))) in
          let (m, key) =
            select_sound (key_of s.sql) (s.sql.collate (r.form "email")) w.db.users
              (only-eq_some (select fits w.db.users) found) in
          (m, key, ground (arith, h, is, Bool-cases (s.matches v.password (r.form "password"))))
    ]

pub login-Member :
    (s : Site) (r : Request) (w : Web) (u : User)
    → IsUnique s.sql w.db
    → s.sql.fails login_select ≡ false
    → Member u w.db.users
    → s.sql.collate u.email ≡ s.sql.collate (r.form "email")
    → s.matches u.password (r.form "password") ≡ true
    → login s.sql s.matches w.db (r.form "email") (r.form "password") ≡ some u
unfolding login select_one
login-Member s r w u (below, ids, keys) works m key right =
    let one = only-Member (key_of s.sql) (s.sql.collate (r.form "email")) u w.db.users keys m key in
    ground (arith, works, one, right)

-- Where no two users share an address and the look-up works, a request to sign in from a browser with
-- no session gets the session of the user with an id exactly where a user with that id, and with the
-- address and the password of the form, has confirmed the address.
pub sign_in_post_iff :
    (s : Site) (r : Request) (w : Web) (i : ℕ)
    → IsUnique s.sql w.db
    → s.sql.fails login_select ≡ false
    → w.session ≡ none
    → ((sign_in_post s r w).0.session ≡ some i) ↔ ((u : User) × MaySignIn s r w u × (u.id ≡ i))
unfolding sign_in_post
sign_in_post_iff s r w i unique works out = (
  λ e. elim (Option-cases (login s.sql s.matches w.db (r.form "email") (r.form "password"))) [
    | inl refused ↦ absurd (ground (arith, e, refused, out))
    | inr (u, is) ↦
        let (m, key, right) = login-finds s r w is in
        let verified : u.email_verified ≢ 0 = ground (arith, e, is, out) in
        let at : u.id ≡ i = ground (
          arith,
          e,
          is,
          out,
          Bool-cases (u.email_verified == 0),
          Bool-cases (u.multi_sig_address == ""),
        ) in
        (u, (m, key, right, verified), at)
  ],
  λ (u, (m, key, right, verified), at).
      let is = login-Member s r w u unique works m key right in
      ground (arith, is, verified, at, Bool-cases (u.multi_sig_address == "")),
)
