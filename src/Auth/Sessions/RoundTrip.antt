-- ===== src/Auth/Sessions/RoundTrip.antt =====
-- From a login to the requests with its tokens, and with older ones.
use black_soil_loop_server.Prelude.{◌||◌, ◌==◌, is_some}
use black_soil_loop_server.Prelude.{
  ◌+◌, ◌≤◌, ◌<◌, String, ◌≡◌, refl, List, [], ◌∷◌, ◌++◌, arith, none, some, Bool, true, false,
  Option, Option-cases, inl, inr, Bool-cases, not,
}
use black_soil_loop_server.Models.{RowId, Instant, User, UserSession}
use black_soil_loop_server.Table.{get, put, update_where}
use black_soil_loop_server.Db.{Db, user_key, session_key}
use black_soil_loop_server.Auth.Sessions.{
  Claims, Crypto, revoke, Decoded, Settings, issue_tokens, get_current_user, current, decode_token,
  enter_checked, enter_session, IssuedTokens, session_claims, TokenType, is_live_of,
}
use black_soil_loop_server.Tx.{ok, err, Result}
use black_soil_loop_server.Table.Laws.{get-put_at, get-append_last}
use black_soil_loop_server.Errors.{business}

-- What a token says of the session.
abbrev pub SameSession : Claims → Claims → Type 0
SameSession c d =
    (c.sub ≡ d.sub) × (c.sid ≡ d.sid) × (c.ver ≡ d.ver) × (c.token_type ≡ d.token_type)

-- The documented behaviour of PyJWT for the algorithm of the program. A token is decoded to the claims it was
-- made of, whose times are whole seconds then, from its issue to a second before it ends at least.
pub record TokenLaws (crypto : Crypto) : Type 0 where
  pub faithful :
      (c d : Claims) (now : Instant)
      → crypto.decode now (crypto.encode c) ≡ Decoded.claims d
      → SameSession d c
  pub fresh :
      (c : Claims) (now : Instant)
      → c.iat ≤ now
      → now + 1_000_000 ≤ c.exp
      → (d : Claims) × (crypto.decode now (crypto.encode c) ≡ Decoded.claims d)

get-revoked :
    (p : UserSession → Bool) (now : Instant) (id : RowId) (rows : List UserSession)
    → get id rows ≡ none
    → get id (update_where p (revoke now) rows) ≡ none
get-revoked p now id [] h = refl
get-revoked p now id (x ∷ rows) h = ground (arith, get-revoked p now id rows)

-- A call that is refused with 401 and changes nothing.
abbrev is_unauthorized : Result User → Bool
is_unauthorized (err (business x)) = x.status_code == 401
is_unauthorized _ = false

abbrev pub Refused : Result User × Db → Db → Type 0
Refused (r, db') db = (is_unauthorized r ≡ true) × (db' ≡ db)

module _ (crypto : Crypto) (settings : Settings) where
  -- A token whose claims name a live session of an active user, under their versions, passes.
  current-ok :
      (now : Instant) (nonce token : String) (d : Claims) (user : User) (session : UserSession)
      (db : Db)
      → crypto.decode now token ≡ Decoded.claims d
      → d.token_type ≡ TokenType.access
      → get d.sub db.users ≡ some user
      → get d.sid db.sessions ≡ some session
      → user.active ≡ true
      → session.revoked_at ≡ none
      → d.ver ≡ user.session_version
      → session.session_version ≡ user.session_version
      → current crypto settings now nonce (some token) db ≡ ok ((user, session), db)
  unfolding current decode_token
  current-ok now nonce token d user session db decoded t owner found active live v w = ground arith

  get_current_user-ok :
      (now : Instant) (nonce : String) (credentials : Option String) (user : User)
      (session : UserSession) (db : Db)
      → current crypto settings now nonce credentials db ≡ ok ((user, session), db)
      → now ≤ session.last_activity_at + settings.idle_timeout
      → (get_current_user crypto settings now nonce credentials db).0 ≡ ok user
  unfolding get_current_user enter_checked enter_session
  get_current_user-ok now nonce credentials user session db c h = ground (arith, c, h)

  -- The access token of a login is accepted: with no other change to the database, a request with it answers
  -- for the user from the login to a second before the token ends, as long as the idle time is not over.
  pub issue_tokens-accepted :
      (laws : TokenLaws crypto) (now later : Instant) (nonce : String) (user : User)
      (tokens : IssuedTokens) (db db' : Db)
      → get user.id db.users ≡ some user
      → user.active ≡ true
      → get db.next_id db.sessions ≡ none
      → issue_tokens crypto settings now nonce user db ≡ ok (tokens, db')
      → now ≤ later
      → later + 1_000_000 ≤ tokens.access_expires_at
      → later ≤ now + settings.idle_timeout
      → (get_current_user crypto settings later nonce (some tokens.access_token) db').0
        ≡ ok (record user { session_version = user.session_version + 1 })
  unfolding issue_tokens
  issue_tokens-accepted laws now later nonce user tokens db db' stored active new_id p after before
        used =
      let version = user.session_version + 1 in
      let c =
        session_claims crypto settings now nonce user.id db.next_id version TokenType.access
          (now + settings.access_token_life) "" in
      let ends : tokens.access_expires_at ≡ now + settings.access_token_life = ground arith in
      let issued : tokens.access_token ≡ crypto.encode c = ground arith in
      let (d, decoded) = laws.fresh c later after (omega (arith, ends, before)) in
      let (sub, sid, ver, t) = laws.faithful c d later decoded in
      let opened : UserSession = record {
        id = db.next_id;
        user_id = user.id;
        refresh_token_hash = crypto.token_hash tokens.refresh_token;
        session_version = version;
        expires_at = now + settings.refresh_token_life;
        last_activity_at = now;
        revoked_at = none;
      } in
      let closed = update_where (is_live_of user.id) (revoke now) db.sessions in
      let rows : db'.sessions ≡ closed ++ opened ∷ [] = ground arith in
      let renewed : User = record user { session_version = version } in
      let users : db'.users ≡ put renewed db.users = ground arith in
      get_current_user-ok later nonce (some tokens.access_token) renewed opened db'
        (current-ok later nonce tokens.access_token d renewed opened db' (rw issued decoded) t
          (rw (sub, users) (get-put_at renewed user user.id db.users refl stored))
          (rw (sid, rows)
            (get-append_last opened closed
              (get-revoked (is_live_of user.id) now db.next_id db.sessions new_id)))
          active refl ver refl)
        used

  -- A token of an old version is refused.
  current-old :
      (now : Instant) (nonce token : String) (user : User) (db : Db) (r : Decoded)
      → crypto.decode now token ≡ r
      → ((d : Claims)
          → r ≡ Decoded.claims d
          → (get d.sub db.users ≡ some user) × (d.ver < user.session_version))
      → Refused (get_current_user crypto settings now nonce (some token) db) db
  unfolding get_current_user current decode_token enter_checked
  current-old now nonce token user db Decoded.expired e h = (ground arith, ground arith)
  current-old now nonce token user db Decoded.malformed e h = (ground arith, ground arith)
  current-old now nonce token user db (Decoded.claims d) e h =
      let (stored, older) = h d refl in
      elim (Option-cases (get d.sid db.sessions)) [
        | inl gone ↦ (ground (arith, gone), ground (arith, gone))
        | inr (session, found) ↦ elim (Bool-cases (not user.active || is_some session.revoked_at)) [
          | inl closed ↦
              (ground (arith, stored, found, closed, e), ground (arith, stored, found, closed, e))
          | inr live ↦ (
            ground (arith, stored, found, live, e, older),
            ground (arith, stored, found, live, e, older),
          )
        ]
      ]

  -- A login ends the access tokens that the user had: whenever one of them, with a version up to the one
  -- before the login, is sent after it with no other change to the database, it is refused with 401 and
  -- nothing changes.
  pub issue_tokens-replaces :
      (laws : TokenLaws crypto) (now later : Instant) (nonce : String) (user : User)
      (tokens : IssuedTokens) (db db' : Db) (old : Claims)
      → get user.id db.users ≡ some user
      → old.sub ≡ user.id
      → old.ver ≤ user.session_version
      → issue_tokens crypto settings now nonce user db ≡ ok (tokens, db')
      → Refused (get_current_user crypto settings later nonce (some (crypto.encode old)) db') db'
  unfolding issue_tokens
  issue_tokens-replaces laws now later nonce user tokens db db' old stored mine earlier p =
      let renewed : User = record user { session_version = user.session_version + 1 } in
      let users : db'.users ≡ put renewed db.users = ground arith in
      current-old later nonce (crypto.encode old) renewed db'
        (crypto.decode later (crypto.encode old)) refl
        (λ d decoded.
          let (sub, sid, ver, t) = laws.faithful old d later decoded in
          (
            rw (sub, mine, users) (get-put_at renewed user user.id db.users refl stored),
            omega (arith, ver, earlier),
          ))
