-- ===== src/Accounts/Routes/Tests.antt =====
-- A site with two users, one of whom has not confirmed the address.
use hxstakepool.Prelude.{
  ℕ, String, ◌<>◌, string_eq, nat_eq, Bool, true, false, [], ◌∷◌, none, some, ◌≡◌, ◌≢◌, ◌↔◌, refl,
  arith, ◌==◌, inl,
}
use hxstakepool.Accounts.Tables.{User, Statement, get_user_by_email_select}
use hxstakepool.Accounts.Site.{Site, Request, Web}
use hxstakepool.Accounts.SignIn.{sign_in_post}
use hxstakepool.Accounts.SignIn.Laws.{MaySignIn, sign_in_post_iff}
use hxstakepool.Accounts.Unique.{IsUnique}
use hxstakepool.Accounts.Routes.{
  post_signup, get_emailverify, post_signin, post_passwordreset, post_passwordupdate, get_logout,
  serve,
}
use hxstakepool.Accounts.Routes.Unique.{serve-IsUnique}
use hxstakepool.Accounts.Routes.Reset.{serve-reset}
use hxstakepool.Accounts.Routes.Register.{serve-register}

abbrev user : (id : ℕ) → (email password token : String) → (verified : ℕ) → User
user id email password token verified = record {
  id = id;
  email = email;
  username = email;
  password = password;
  multi_sig_address = "";
  multi_sig_script = "";
  pool_pub_key_addr = "";
  user_pub_key_addr = "";
  user_fee_addr = "";
  height_registered = 0;
  email_verified = verified;
  email_token = token;
  api_token = "";
  vote_bits = 1;
  vote_bits_version = 4;
}

abbrev alice : User
alice = user 1 "alice@pool" "#rose" "" 1

abbrev bob : User
bob = user 2 "bob@pool" "#tulip" "tb" 0

abbrev with_fails : (Statement → Bool) → Site
with_fails fails = record {
  sql = record { collate = λ t. t; fails = fails };
  base_url = "https://pool";
  close_pool = false;
  vote_version = 4;
  hash_password = λ p. "#" <> p;
  matches = λ h p. h == ("#" <> p);
  delivers = λ mail. true;
  has_at = λ t. true;
  signed_string = λ id now. some "jwt";
}

abbrev site : Site
site = with_fails (λ statement. false)

abbrev is_look_up : Statement → Bool
is_look_up get_user_by_email_select = true
is_look_up _ = false

abbrev broken : Site
broken = with_fails is_look_up

abbrev world : Web
world = record {
  db = record {
    users = alice ∷ bob ∷ [];
    next_id = 3;
    email_changes =
        record {
          user_id = 1;
          new_email = "alice@new";
          token = "change";
          created = 0;
          expires = 3600;
        }
        ∷ [];
    password_resets = record { user_id = 1; token = "old"; created = 0; expires = 3600 } ∷ [];
  };
  session = none;
  mails = [];
  flashes = [];
}

abbrev request : (email password t token : String) → (now : ℕ) → Request
request email password t token now = record {
  form = λ field. elim (field == "email") [ true ↦ email | false ↦ password ];
  t = t;
  is_valid = true;
  now = now;
  rand_token = token;
}

abbrev sign_in : Request
sign_in = request "alice@pool" "rose" "" "" 5

differs : (a b : String) → (a == b) ≡ false → a ≢ b
differs a b h e = ground (arith, h, e, string_eq.beq_iff a b)

world-IsUnique : IsUnique site.sql world.db
world-IsUnique = (
  (omega arith, (omega arith, tt)),
  ((omega arith, tt), (tt, tt)),
  ((differs "bob@pool" "alice@pool" refl, tt), (tt, tt)),
)

sign_in_post_iff_example :
    ((sign_in_post site sign_in world).0.session ≡ some 1)
    ↔ ((u : User) × MaySignIn site sign_in world u × (u.id ≡ 1))
sign_in_post_iff_example = sign_in_post_iff site sign_in world 1 world-IsUnique refl refl

serve-IsUnique_example :
    IsUnique site.sql
      (serve site
        ((none, post_signup (request "carol@pool" "lily" "" "tc" 7))
          ∷ (some 1, get_logout)
          ∷ (none, post_signup (request "bob@pool" "iris" "" "td" 8))
          ∷ [])
        world).db
serve-IsUnique_example =
    serve-IsUnique site
      ((none, post_signup (request "carol@pool" "lily" "" "tc" 7))
        ∷ (some 1, get_logout)
        ∷ (none, post_signup (request "bob@pool" "iris" "" "td" 8))
        ∷ [])
      world refl world-IsUnique

serve-reset_example :
    (serve site
      ((none, post_passwordreset (request "alice@pool" "" "" "new" 100))
        ∷ (none, post_passwordupdate (request "" "daisy" "new" "" 200))
        ∷ (none, post_signin (request "alice@pool" "daisy" "" "" 300))
        ∷ [])
      world).session
    ≡ some 1
serve-reset_example =
    serve-reset site (request "alice@pool" "" "" "new" 100) (request "" "daisy" "new" "" 200)
      (request "alice@pool" "daisy" "" "" 300) world alice (λ statement. refl) world-IsUnique
      (inl refl) (omega arith) refl refl refl (differs "new" "" refl) (differs "old" "new" refl, tt)
      (omega arith) (differs "daisy" "" refl) refl refl refl

serve-register_example :
    ((serve site
        ((none, post_signup (request "carol@pool" "lily" "" "tc" 7))
          ∷ (none, post_signin (request "carol@pool" "lily" "" "" 9))
          ∷ [])
        world).session
      ≢ some 3)
    × ((serve site
          ((none, post_signup (request "carol@pool" "lily" "" "tc" 7))
            ∷ (none, get_emailverify (request "" "" "tc" "" 8))
            ∷ (none, post_signin (request "carol@pool" "lily" "" "" 9))
            ∷ [])
          world).session
        ≡ some 3)
serve-register_example =
    serve-register site (request "carol@pool" "lily" "" "tc" 7) (request "" "" "tc" "" 8)
      (request "carol@pool" "lily" "" "" 9) world (λ statement. refl) world-IsUnique
      (record {
        is_open = refl;
        has_at = refl;
        some_text = differs "lily" "" refl;
        twice = refl;
        human = refl;
        free = (differs "alice@pool" "carol@pool" refl, (differs "bob@pool" "carol@pool" refl, tt));
      })
      refl (differs "tc" "" refl) (differs "" "tc" refl, (differs "tb" "tc" refl, tt)) refl refl

-- The new row of the first user.
abbrev alice2 : User
alice2 = user 1 "alice@pool" "#daisy" "" 1

abbrev alice3 : User
alice3 = record alice { email = "alice@new" }
