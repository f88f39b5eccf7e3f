-- ===== src/Auth/Api.antt =====
-- The token calls of app/shared/auth_api.py. A life of a cookie is in microseconds, as the settings are here.
use black_soil_loop_server.Tx.{◌>>=◌, pure}
use black_soil_loop_server.Prelude.{
  ℕ, String, Bool, true, false, not, ◌||◌, ◌&&◌, Option, none, some, List, [], ◌∷◌, eq_iff, sym,
  str_eq, if◌then◌else◌, ◌≡◌, ◌≢◌, Bool-cases, is_some, inl, arith, inr,
}
use black_soil_loop_server.Models.{Instant, RowId, User, Role}
use black_soil_loop_server.Auth.Sessions.{
  Crypto, Settings, IssuedTokens, Call, revoke_session, rotate_refresh_token, issue_tokens,
  authenticate,
}
use black_soil_loop_server.Tx.{Tx, Result, ok, err}
use black_soil_loop_server.Db.{Db}
use black_soil_loop_server.Errors.{error, ErrorCode}

pub data CookieName : Type 0 where
  blacksoil_refresh blacksoil_csrf : CookieName

-- What `response.set_cookie` is called with, but for the path, the domain and the flags of the deployment.
pub record Cookie : Type 0 where
  pub name : CookieName
  pub value : String
  pub http_only : Bool
  pub max_age : ℕ

-- The user as `_token_payload` shows it.
pub record UserView : Type 0 where
  pub id : RowId
  pub username : String
  pub display_name : String
  pub role : Role
  pub enterprise_id : Option RowId
  pub store_id : Option RowId
  pub driver_id : Option RowId

abbrev pub user_view : User → UserView
user_view user = record {
  id = user.id;
  username = user.username;
  display_name = user.display_name;
  role = user.role;
  enterprise_id = user.enterprise_id;
  store_id = user.store_id;
  driver_id = user.driver_id;
}

-- `_token_payload`
pub record TokenPayload : Type 0 where
  pub access_token : String
  pub refresh_token : Option String
  pub access_expires_at : Instant
  pub refresh_expires_at : Instant
  pub idle_timeout : ℕ
  pub csrf_token : Option String
  pub user : UserView

-- The body of an answer, and the cookies that go with it.
pub record Answer : Type 0 where
  pub payload : TokenPayload
  pub cookies : List Cookie

-- What `refresh_user` reads of a request.
pub record RefreshCall : Type 0 where
  pub refresh_token : Option String
  pub refresh_cookie : Option String
  pub csrf_cookie : Option String
  pub csrf_header : Option String

-- `value or ""`
abbrev pub or_empty : Option String → String
or_empty none = ""
or_empty (some s) = s

-- `refresh_token or request.cookies.get("blacksoil_refresh")`, "" for a missing one.
abbrev pub raw_token : RefreshCall → String
raw_token request =
    if str_eq (or_empty request.refresh_token) ""
    then or_empty request.refresh_cookie
    else or_empty request.refresh_token

-- `not csrf_cookie or not hmac.compare_digest(csrf_cookie, csrf_header)`
abbrev pub csrf_fails : RefreshCall → Bool
csrf_fails request =
    str_eq (or_empty request.csrf_cookie) ""
    || not (str_eq (or_empty request.csrf_cookie) (or_empty request.csrf_header))

module _ (crypto : Crypto) (settings : Settings) (now : Instant) (nonce csrf_token : String) where
  abbrev pub token_payload : User → IssuedTokens → Bool → TokenPayload
  token_payload user tokens include_refresh = record {
    access_token = tokens.access_token;
    refresh_token = if include_refresh then some tokens.refresh_token else none;
    access_expires_at = tokens.access_expires_at;
    refresh_expires_at = tokens.refresh_expires_at;
    idle_timeout = settings.idle_timeout;
    csrf_token = if include_refresh then none else some csrf_token;
    user = user_view user;
  }

  -- The two calls of `set_cookie`.
  abbrev pub set_cookies : IssuedTokens → List Cookie
  set_cookies tokens =
      record {
        name = CookieName.blacksoil_refresh;
        value = tokens.refresh_token;
        http_only = true;
        max_age = settings.refresh_token_life;
      }
      ∷ record {
        name = CookieName.blacksoil_csrf;
        value = csrf_token;
        http_only = false;
        max_age = settings.refresh_token_life;
      }
      ∷ []

  abbrev pub answer_with : User → IssuedTokens → Bool → Answer
  answer_with user tokens include_refresh = record {
    payload = token_payload user tokens include_refresh;
    cookies = set_cookies tokens;
  }

  unfoldable pub issue_user_tokens : User → Bool → Tx Answer
  issue_user_tokens user include_refresh = do
    tokens ← issue_tokens crypto settings now nonce user
    pure (answer_with user tokens include_refresh)

  unfoldable pub login_user : String → String → Bool → Tx Answer
  login_user username password include_refresh = do
    user ← authenticate crypto settings now nonce username password
    issue_user_tokens user include_refresh

  unfoldable pub answer_rotated : Bool → Result (User × IssuedTokens) × Db → Result Answer × Db
  answer_rotated include_refresh (ok (user, tokens), db) =
      (ok (answer_with user tokens include_refresh), db)
  answer_rotated include_refresh (err e, db) = (err e, db)

  -- The token of the body is used without the check of the CSRF token, whatever its text.
  unfoldable pub refresh_user : RefreshCall → Bool → Call Answer
  refresh_user request include_refresh db =
      if str_eq (raw_token request) ""
      then (err (error ErrorCode.refresh_token_required 401), db)
      else if not (is_some request.refresh_token) && csrf_fails request
      then (err (error ErrorCode.csrf_validation_failed 403), db)
      else answer_rotated include_refresh
          (rotate_refresh_token crypto settings now nonce (raw_token request) db)

  -- The database afterwards, and the cookies that are deleted.
  unfoldable pub logout_user : RowId → Db → List CookieName × Db
  logout_user session_id db = (
    CookieName.blacksoil_refresh ∷ CookieName.blacksoil_csrf ∷ [],
    revoke_session crypto settings now nonce session_id db,
  )

csrf-passes :
    (cookie header : String)
    → (str_eq cookie "" || not (str_eq cookie header)) ≡ false
    → (cookie ≢ "") × (header ≡ cookie)
csrf-passes cookie header h = elim (Bool-cases (str_eq cookie header)) [
  | inl same ↦
      (λ empty. ground (arith, h, (eq_iff cookie "").1 empty), sym ((eq_iff cookie header).0 same))
  | inr other ↦ absurd (ground (arith, h, other))
]

-- A refresh that is answered, of a request whose body names no token, carried a CSRF token in its header
-- that is not empty and is the one of the cookie.
pub refresh_user-csrf :
    (crypto : Crypto) (settings : Settings) (now : Instant) (nonce csrf_token : String)
    (request : RefreshCall) (include_refresh : Bool) (answer : Answer) (db db' : Db)
    → request.refresh_token ≡ none
    → refresh_user crypto settings now nonce csrf_token request include_refresh db
      ≡ (ok answer, db')
    → (or_empty request.csrf_cookie ≢ "")
      × (or_empty request.csrf_header ≡ or_empty request.csrf_cookie)
unfolding refresh_user
refresh_user-csrf crypto settings now nonce csrf_token request include_refresh answer db db'
      none_given p =
    elim (Bool-cases (csrf_fails request)) [
      | inl fails ↦ absurd (ground (arith, p, fails, none_given))
      | inr passes ↦
          csrf-passes (or_empty request.csrf_cookie) (or_empty request.csrf_header) passes
    ]
