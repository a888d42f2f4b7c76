-- ===== src/Accounts/Routes/Register.antt =====
-- A new account: the form, the link of the mail, and the first session.
use hxstakepool.Prelude.{
  String, string_eq, nat_eq, Bool, true, false, List, [], ◌∷◌, ◌++◌, none, some, ◌<◌, ◌≡◌, ◌≢◌,
  refl, sym, ap, subst, arith, Member, inl, inr,
}
use hxstakepool.Accounts.Tables.{
  User, Sql, Statement, get_user_by_email_select, login_select, insert_user_insert,
  email_verification_token_exists_select, email_verification_complete_update, select, update, same,
  select_one, get_user_by_email, insert_user, email_verification_token_exists,
  email_verification_complete,
}
use hxstakepool.Accounts.Site.{Site, Request, Web}
use hxstakepool.Accounts.SignUp.{new_user, register, sign_up_post, email_verify}
use hxstakepool.Accounts.SignIn.Laws.{sign_in_post_iff}
use hxstakepool.Accounts.Rows.{
  Absent, select-append, select-Absent, Member-update, Member-append_last, All-Member,
  append-Member,
}
use hxstakepool.Accounts.Unique.{IsUnique, key_of}
use hxstakepool.Accounts.Routes.{post_signup, get_emailverify, post_signin, handle, serve}
use hxstakepool.Accounts.Routes.Unique.{handle-Keeps}

abbrev pub email_token_of : Sql → User → String
email_token_of sql u = sql.collate u.email_token

-- A form that `SignUpPost` takes, where nobody has its address.
pub record IsForm (s : Site) (r : Request) (w : Web) : Type 0 where
  pub is_open : s.close_pool ≡ false
  pub has_at : s.has_at (r.form "email") ≡ true
  pub some_text : r.form "password" ≢ ""
  pub twice : r.form "password" ≡ r.form "passwordrepeat"
  pub human : r.is_valid ≡ true
  pub free : Absent (key_of s.sql) (s.sql.collate (r.form "email")) w.db.users

module _ (s : Site) (works : (statement : Statement) → s.sql.fails statement ≡ false) where
  sign_up_post-db :
      (r : Request) (w : Web)
      → IsForm s r w
      → (sign_up_post s r w).0.db ≡ (insert_user s.sql w.db (new_user s r)).0
  unfolding sign_up_post register insert_user get_user_by_email select_one
  sign_up_post-db r w f =
      let absent =
        select-Absent (key_of s.sql) (s.sql.collate (r.form "email")) w.db.users f.free in
      ground (
        arith,
        absent,
        works get_user_by_email_select,
        works insert_user_insert,
        f.is_open,
        f.has_at,
        f.human,
        f.some_text,
        f.twice,
        string_eq.beq_iff (r.form "password") "",
        string_eq.beq_iff (r.form "password") (r.form "passwordrepeat"),
      )

  email_verify-Member :
      (r : Request) (w : Web) (users : List User) (u : User)
      → w.db.users ≡ users ++ (u ∷ [])
      → Absent (email_token_of s.sql) (s.sql.collate r.t) users
      → u.email_token ≡ r.t
      → r.t ≢ ""
      → Member (record u { email_token = ""; email_verified = 1 }) (email_verify s r w).0.db.users
  unfolding email_verify email_verification_token_exists email_verification_complete select_one
      select
  email_verify-Member r w users u at absent link token =
      let fits : User → Bool = λ v. same s.sql v.email_token r.t in
      let set : User → User = λ v. record v { email_token = ""; email_verified = 1 } in
      let none_before = select-Absent (email_token_of s.sql) (s.sql.collate r.t) users absent in
      let here : fits u ≡ true =
        (string_eq.beq_iff (s.sql.collate u.email_token) (s.sql.collate r.t)).1
          (ap s.sql.collate link) in
      let last : select fits (users ++ (u ∷ [])) ≡ u ∷ [] =
        ground (arith, select-append fits users (u ∷ []) none_before, here) in
      let one : select fits w.db.users ≡ u ∷ [] =
        subst (λ l. select fits l ≡ u ∷ []) (sym at) last in
      let eq : update fits set w.db.users ≡ (email_verify s r w).0.db.users = ground (
        arith,
        one,
        works email_verification_token_exists_select,
        works email_verification_complete_update,
        string_eq.beq_iff r.t "",
        token,
      ) in
      let m = subst (Member u) (sym at) (Member-append_last u users) in
      let m2 = Member-update fits set u w.db.users m in
      subst (Member (set u)) eq
        (subst (λ v. Member v (update fits set w.db.users)) (ground (arith, here)) m2)

-- Where no statement fails, a form that is in order and whose address nobody has makes an account
-- that has no session before its address is confirmed, and that signs in, by the address and the
-- password of the form, once its link was followed, if the token is neither empty nor that of another
-- user, and bcrypt accepts the password for its own hash.
pub serve-register :
    (s : Site) (form link sign_in : Request) (w : Web)
    → ((statement : Statement) → s.sql.fails statement ≡ false)
    → IsUnique s.sql w.db
    → IsForm s form w
    → link.t ≡ form.rand_token
    → link.t ≢ ""
    → Absent (email_token_of s.sql) (s.sql.collate link.t) w.db.users
    → s.sql.collate (form.form "email") ≡ s.sql.collate (sign_in.form "email")
    → s.matches (s.hash_password (form.form "password")) (sign_in.form "password") ≡ true
    → ((serve s ((none, post_signup form) ∷ (none, post_signin sign_in) ∷ []) w).session
        ≢ some w.db.next_id)
      × ((serve s
            ((none, post_signup form)
              ∷ (none, get_emailverify link)
              ∷ (none, post_signin sign_in)
              ∷ [])
            w).session
          ≡ some w.db.next_id)
unfolding serve handle insert_user
serve-register s form link sign_in w works unique f same_token token absent key right =
    let v0 = record w { session = none } in
    let v1 = record (sign_up_post s form v0).0 { session = none } in
    let v2 = record (email_verify s link v1).0 { session = none } in
    let u : User = record (new_user s form) { id = w.db.next_id } in
    let added = sign_up_post-db s works form v0 (record {
      is_open = f.is_open;
      has_at = f.has_at;
      some_text = f.some_text;
      twice = f.twice;
      human = f.human;
      free = f.free;
    }) in
    let users1 : v1.db.users ≡ w.db.users ++ (u ∷ []) =
      ground (arith, added, works insert_user_insert) in
    let unique1 : IsUnique s.sql v1.db =
      handle-Keeps s (works get_user_by_email_select) (post_signup form) v0 unique in
    let unique2 : IsUnique s.sql v2.db =
      handle-Keeps s (works get_user_by_email_select) (get_emailverify link) v1 unique1 in
    let m2 =
      email_verify-Member s works link v1 w.db.users u users1 absent (sym same_token) token in
    (
      λ e.
          let (v, (m, key2, right2, verified), at) =
            (sign_in_post_iff s sign_in v1 w.db.next_id unique1 (works login_select) refl).0 e in
          elim (append-Member v u w.db.users (subst (Member v) users1 m)) [
            | inl old ↦
                let less =
                  All-Member (λ (x : User). x.id < w.db.next_id) v w.db.users old unique.0 in
                omega (arith, less, at)
            | inr new ↦ verified (ap (λ (x : User). x.email_verified) new)
          ],
      (sign_in_post_iff s sign_in v2 w.db.next_id unique2 (works login_select) refl).1 (
        record u { email_token = ""; email_verified = 1 },
        (m2, key, right, λ zero_is. cc zero_is),
        refl,
      ),
    )
