-- ===== src/Accounts/Site.antt =====
-- What the handlers of controllers/main.go share: the settings of the controller, the request, and the
-- state, which is the database, the session and the mails sent. A page is named by its template; what it
-- shows is not modelled but for the flashes, which stay in the order of `AddFlash`.
use hxstakepool.Prelude.{ℕ, String, Bool, true, false, List, [], ◌∷◌, ◌++◌, Option, if◌then◌else◌}
use hxstakepool.Accounts.Tables.{Db, Sql}

-- Of a mail, the link in its body, where it has one.
pub record Mail : Type 0 where
  pub address : String
  pub subject : String
  pub link : Option String

-- `MainController`, with bcrypt and the mail server, which are libraries or services.
pub record Site : Type 0 where
  pub sql : Sql
  pub base_url : String
  pub close_pool : Bool
  pub vote_version : ℕ
  -- `GenerateFromPassword` and `CompareHashAndPassword`
  pub hash_password : String → String
  pub matches : (hash password : String) → Bool
  -- Whether `SendMailUsingTLS` returns no error.
  pub delivers : Mail → Bool
  -- The token that `SignedString` of jwt returns, for a user and a time.
  pub signed_string : (id now : ℕ) → Option String
  -- `strings.Contains(email, "@")` is the standard library's.
  pub has_at : String → Bool

-- `r.FormValue`, `r.URL.Query().Get("t")`, the answer of the recaptcha, the time and `randToken`.
pub record Request : Type 0 where
  pub form : String → String
  pub t : String
  pub is_valid : Bool
  pub now : ℕ
  pub rand_token : String

-- `session` is `session.Values["UserId"]`.
pub record Web : Type 0 where
  pub db : Db
  pub session : Option ℕ
  pub mails : List Mail
  pub flashes : List (String × String)

-- The page or the path, or a dereference of nil, which the router answers by an error.
pub data Reply : Type 0 where
  page see_other : String → Reply
  crash : Reply

abbrev pub add_flash : (message key : String) → Web → Web
add_flash message key w = record w { flashes = w.flashes ++ ((key, message) ∷ []) }

-- `SendMailUsingTLS`: the state, and whether there was no error.
abbrev pub send_mail : Site → Mail → Web → Web × Bool
send_mail s mail w =
    if s.delivers mail then (record w { mails = w.mails ++ (mail ∷ []) }, true) else (w, false)
