-- ===== src/Accounts/Passwords/Laws.antt =====
-- What a token of a password reset allows.
use hxstakepool.Prelude.{ℕ, ◌<◌, String, nat_eq, ◌≡◌, arith, Member, Option-cases}
use hxstakepool.Accounts.Tables.{User, PasswordReset, Db, Sql, password_reset_token_exists}
use hxstakepool.Accounts.Site.{Site, Request, Web}
use hxstakepool.Accounts.Passwords.{password_update}

abbrev pub token_of : Sql → PasswordReset → String
token_of sql p = sql.collate p.token

-- The token of the request is in the table, for the user with an id, and is not an hour old.
abbrev pub MayReset : Site → Request → Web → ℕ → Type 0
MayReset s r w i =
    (p : PasswordReset) × Member p w.db.password_resets
    × (token_of s.sql p ≡ s.sql.collate r.t)
    × (r.now < p.expires)
    × (p.user_id ≡ i)

-- The user stood in the table with another password, and differs in nothing else.
abbrev pub OnlyPassword : Db → User → (password : String) → Type 0
OnlyPassword db u password =
    (old : User) × Member old db.users × (u ≡ record old { password = password })

module _ (s : Site) (r : Request) where
  pub password_update-db : (w : Web) → w.db ≡ (password_update s r w).0.db
  unfolding password_update
  password_update-db w = ground (arith, Option-cases (password_reset_token_exists s.sql w.db r.t))
