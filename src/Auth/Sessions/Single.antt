-- ===== src/Auth/Sessions/Single.antt =====
-- The sessions of a user after a login.
use black_soil_loop_server.Prelude.{
  select-append, ◌+◌, String, ◌≡◌, ◌≢◌, refl, List, [], ◌∷◌, ◌++◌, select, arith, none,
}
use black_soil_loop_server.Models.{RowId, Instant, User, UserSession}
use black_soil_loop_server.Table.{update_where}
use black_soil_loop_server.Db.{Db, user_key, session_key}
use black_soil_loop_server.Tx.{ok}
use black_soil_loop_server.Auth.Sessions.{
  Crypto, Settings, IssuedTokens, is_live_of, revoke, issue_tokens,
}

append_nil : (xs : List UserSession) → xs ++ [] ≡ xs
append_nil [] = refl
append_nil (x ∷ xs) = ground (arith, append_nil xs)

revoked-none :
    (now : Instant) (user_id : RowId) (rows : List UserSession)
    → select (is_live_of user_id) (update_where (is_live_of user_id) (revoke now) rows) ≡ []
revoked-none now user_id [] = refl
revoked-none now user_id (s ∷ rows) = ground (arith, revoked-none now user_id rows)

revoked-others :
    (now : Instant) (user_id other : RowId) (rows : List UserSession)
    → user_id ≢ other
    → select (is_live_of other) (update_where (is_live_of user_id) (revoke now) rows)
      ≡ select (is_live_of other) rows
revoked-others now user_id other [] ne = refl
revoked-others now user_id other (s ∷ rows) ne =
    ground (arith, revoked-others now user_id other rows ne)

module _ (crypto : Crypto) (settings : Settings) (now : Instant) (nonce : String) where
  -- A login leaves the user with one live session, the new one: it has the hash of the refresh token
  -- that was issued and the user's next session version. The live sessions of others stay.
  pub issue_tokens-single :
      (user : User) (tokens : IssuedTokens) (db db' : Db)
      → issue_tokens crypto settings now nonce user db ≡ ok (tokens, db')
      → ((session : UserSession) × (select (is_live_of user.id) db'.sessions ≡ session ∷ [])
          × (session.refresh_token_hash ≡ crypto.token_hash tokens.refresh_token)
          × (session.session_version ≡ user.session_version + 1)
          × (session.expires_at ≡ tokens.refresh_expires_at))
        × ((other : RowId)
            → user.id ≢ other
            → select (is_live_of other) db'.sessions ≡ select (is_live_of other) db.sessions)
  unfolding issue_tokens
  issue_tokens-single user tokens db db' p =
      let opened : UserSession = record {
        id = db.next_id;
        user_id = user.id;
        refresh_token_hash = crypto.token_hash tokens.refresh_token;
        session_version = user.session_version + 1;
        expires_at = now + settings.refresh_token_life;
        last_activity_at = now;
        revoked_at = none;
      } in
      let closed = update_where (is_live_of user.id) (revoke now) db.sessions in
      let rows : db'.sessions ≡ closed ++ opened ∷ [] = ground arith in
      (
        (
          opened,
          ground (
            arith,
            rows,
            select-append (is_live_of user.id) closed (opened ∷ []),
            revoked-none now user.id db.sessions,
          ),
          refl,
          refl,
          ground arith,
        ),
        λ other ne. ground (
          arith,
          rows,
          ne,
          select-append (is_live_of other) closed (opened ∷ []),
          revoked-others now user.id other db.sessions ne,
          append_nil (select (is_live_of other) db.sessions),
        ),
      )
