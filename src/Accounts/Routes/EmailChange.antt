-- ===== src/Accounts/Routes/EmailChange.antt =====
-- What a token of an e-mail change allows, and what a failed look-up of an address does.
use hxstakepool.Prelude.{ℕ, ◌<◌, String, ◌≡◌, Member}
use hxstakepool.Accounts.Tables.{User, EmailChange, Db, Sql}
use hxstakepool.Accounts.Site.{Site, Request, Web}

abbrev pub change_token_of : Sql → EmailChange → String
change_token_of sql c = sql.collate c.token

-- The token of the request is in the table, for the user with an id and an address, and is not an
-- hour old.
abbrev pub MayChange : Site → Request → Web → ℕ → String → Type 0
MayChange s r w i email =
    (c : EmailChange) × Member c w.db.email_changes
    × (change_token_of s.sql c ≡ s.sql.collate r.t)
    × (r.now < c.expires)
    × (c.user_id ≡ i)
    × (c.new_email ≡ email)

-- The user stood in the table with another address, and differs in nothing else.
abbrev pub OnlyEmail : Db → User → Type 0
OnlyEmail db u = (old : User) × Member old db.users × (u ≡ record old { email = u.email })
