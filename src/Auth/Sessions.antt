-- ===== src/Auth/Sessions.antt =====
-- The sessions of app/shared/security.py and `get_current_user` of app/shared/dependencies.py.
-- JSON web tokens and password hashing are third-party code: the fields of `Crypto`.
pub mod Single
pub mod RoundTrip
use black_soil_loop_server.Prelude.{
  ℕ, ◌+◌, String, Bool, true, false, not, ◌&&◌, ◌||◌, Option, none, some, [], ◌∷◌, ◌++◌, ◌==◌,
  str_eq, ltb, leb, if◌then◌else◌, find, is_some,
}
use black_soil_loop_server.Models.{RowId, Instant, User, UserSession}
use black_soil_loop_server.Errors.{Raised, ErrorCode, error}
use black_soil_loop_server.Table.{get, put, update_where}
use black_soil_loop_server.Db.{Db, user_key, session_key}
use black_soil_loop_server.Tx.{
  Tx, Result, ok, err, pure, raise_if, or_raise, gets, modify, new_id, ◌>>=◌, ◌>>◌,
}

pub data TokenType : Type 0 where
  access refresh : TokenType

abbrev pub same_type : TokenType → TokenType → Bool
same_type TokenType.access TokenType.access = true
same_type TokenType.refresh TokenType.refresh = true
same_type _ _ = false

pub record Claims : Type 0 where
  pub sub : RowId
  pub sid : RowId
  pub ver : ℕ
  pub iat : Instant
  pub token_type : TokenType
  pub exp : Instant
  pub nonce : String

-- `jwt.decode`: the claims, or one of its two families of exceptions.
pub data Decoded : Type 0 where
  claims : Claims → Decoded
  expired malformed : Decoded

pub record Crypto : Type 0 where
  pub encode : Claims → String
  pub decode : Instant → String → Decoded
  pub token_hash : String → String
  pub verify_password : String → String → Bool

-- The settings that these functions read, as durations in microseconds.
pub record Settings : Type 0 where
  pub access_token_life : ℕ
  pub refresh_token_life : ℕ
  pub idle_timeout : ℕ

pub record IssuedTokens : Type 0 where
  pub access_token : String
  pub refresh_token : String
  pub access_expires_at : Instant
  pub refresh_expires_at : Instant

-- A call with its own commits: the answer, and what is durable afterwards, also behind a raise.
abbrev pub Call : Type 0 → Type 0
Call A = Db → Result A × Db

abbrev pub committed : {A : Type 0} → Result (A × Db) → Db → Result A × Db
committed (ok (a, db')) db = (ok a, db')
committed (err e) db = (err e, db)

abbrev pub is_live_of : RowId → UserSession → Bool
is_live_of user_id s = s.user_id == user_id && not (is_some s.revoked_at)

abbrev pub revoke : Instant → UserSession → UserSession
revoke now s = record s { revoked_at = some now }

abbrev session_invalid : Raised
session_invalid = error ErrorCode.session_invalid 401

module _ (crypto : Crypto) (settings : Settings) (now : Instant) (nonce : String) where
  unfoldable pub decode_token : String → TokenType → Tx Claims
  decode_token token expected_type db = elim (crypto.decode now token) [
    | expired ↦ err (error ErrorCode.token_expired 401)
    | malformed ↦ err (error ErrorCode.token_invalid 401)
    | claims c ↦
        (if same_type c.token_type expected_type
          then ok (c, db)
          else err (error ErrorCode.token_type_invalid 401))
  ]

  unfoldable pub authenticate : String → String → Tx User
  authenticate username password = do
    found ← gets (λ db. find (λ u. str_eq u.username username) db.users)
    user ← or_raise found (error ErrorCode.invalid_credentials 401)
    raise_if (not user.active || not (crypto.verify_password password user.password_hash))
        (error ErrorCode.invalid_credentials 401)
    pure user

  -- The claims of the two tokens of a session.
  abbrev pub session_claims : RowId → RowId → ℕ → TokenType → Instant → String → Claims
  session_claims user_id session_id version t exp n = record {
    sub = user_id;
    sid = session_id;
    ver = version;
    iat = now;
    token_type = t;
    exp = exp;
    nonce = n;
  }

  -- Every live session of the user is revoked, and one is opened under the next version.
  unfoldable pub issue_tokens : User → Tx IssuedTokens
  issue_tokens user = do
    let version = user.session_version + 1
    let refresh_expires = now + settings.refresh_token_life
    let access_expires = now + settings.access_token_life
    id ← new_id
    let refresh_token =
        crypto.encode (session_claims user.id id version TokenType.refresh refresh_expires nonce)
    modify (λ db. record db {
      users = put (record user { session_version = version }) db.users;
      sessions =
          update_where (is_live_of user.id) (revoke now) db.sessions
          ++ record {
            id = id;
            user_id = user.id;
            refresh_token_hash = crypto.token_hash refresh_token;
            session_version = version;
            expires_at = refresh_expires;
            last_activity_at = now;
            revoked_at = none;
          }
            ∷ [];
    })
    pure (record {
      access_token =
          crypto.encode (session_claims user.id id version TokenType.access access_expires "");
      refresh_token = refresh_token;
      access_expires_at = access_expires;
      refresh_expires_at = refresh_expires;
    })

  -- The tests of `rotate_refresh_token` up to the idle limit.
  unfoldable pub refreshable : String → Tx (User × UserSession)
  refreshable raw = do
    payload ← decode_token raw TokenType.refresh
    found ← gets (λ db. get payload.sid db.sessions)
    session ← or_raise found session_invalid
    owner ← gets (λ db. get payload.sub db.users)
    user ← or_raise owner session_invalid
    raise_if (is_some session.revoked_at) session_invalid
    raise_if
        (leb session.expires_at now
          || not (str_eq session.refresh_token_hash (crypto.token_hash raw)))
        session_invalid
    raise_if
        (not (user.session_version == payload.ver)
          || not (session.session_version == user.session_version))
        (error ErrorCode.session_replaced 401)
    pure (user, session)

  abbrev pub is_idle : UserSession → Bool
  is_idle session = ltb (session.last_activity_at + settings.idle_timeout) now

  abbrev pub end_session : UserSession → Db → Db
  end_session session db = record db { sessions = put (revoke now session) db.sessions }

  -- An idle session is revoked for good, although the call raises.
  unfoldable pub rotate_session : User × UserSession → Call (User × IssuedTokens)
  rotate_session (user, session) db =
      if is_idle session
      then (err (error ErrorCode.session_timeout 401), end_session session db)
      else committed ((do tokens ← issue_tokens user; pure (user, tokens)) (end_session session db))
          db

  unfoldable pub rotate_checked : Result ((User × UserSession) × Db) → Call (User × IssuedTokens)
  rotate_checked (err e) db = (err e, db)
  rotate_checked (ok (pair, _)) db = rotate_session pair db

  unfoldable pub rotate_refresh_token : String → Call (User × IssuedTokens)
  rotate_refresh_token raw db = rotate_checked (refreshable raw db) db

  unfoldable pub revoke_session : RowId → Db → Db
  revoke_session session_id db = elim (get session_id db.sessions) [
    | none ↦ db
    | some session ↦ (if is_some session.revoked_at then db else end_session session db)
  ]

  -- The tests of `get_current_user` up to the idle limit.
  unfoldable pub current : Option String → Tx (User × UserSession)
  current credentials = do
    token ← or_raise credentials (error ErrorCode.auth_required 401)
    payload ← decode_token token TokenType.access
    owner ← gets (λ db. get payload.sub db.users)
    found ← gets (λ db. get payload.sid db.sessions)
    user ← or_raise owner session_invalid
    session ← or_raise found session_invalid
    raise_if (not user.active || is_some session.revoked_at) session_invalid
    raise_if
        (not (payload.ver == user.session_version)
          || not (session.session_version == user.session_version))
        (error ErrorCode.session_replaced 401)
    pure (user, session)

  unfoldable pub enter_session : User × UserSession → Call User
  enter_session (user, session) db =
      if is_idle session
      then (err (error ErrorCode.session_timeout 401), end_session session db)
      else (
        ok user,
        record db { sessions = put (record session { last_activity_at = now }) db.sessions },
      )

  unfoldable pub enter_checked : Result ((User × UserSession) × Db) → Call User
  enter_checked (err e) db = (err e, db)
  enter_checked (ok (pair, _)) db = enter_session pair db

  unfoldable pub get_current_user : Option String → Call User
  get_current_user credentials db = enter_checked (current credentials db) db
