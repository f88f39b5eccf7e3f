-- ===== src/Tests/Tokens.antt =====
-- Examples for the tokens: logins at 20 and 25. The codec writes the numbers of the claims in unary.
use black_soil_loop_server.Db.{user_key, session_key, Db}
use Prim.Native.Char.{Char, code}
use Prim.Native.String.{[] as empty, ◌∷◌ as cons}
use black_soil_loop_server.Prelude.{
  ℕ, zero, suc, String, ◌≡◌, refl, ◌≢◌, ap, ◌∙◌, subst, ◌==◌, true, false, none, some, [], arith,
  if◌then◌else◌, Bool, ap,
}
use black_soil_loop_server.Tests.Data.{db_with, driver, state_of}
use black_soil_loop_server.Auth.Sessions.{
  TokenType, Crypto, Decoded, Claims, Settings, session_claims, IssuedTokens, issue_tokens,
  get_current_user, rotate_refresh_token, rotate_checked, refreshable, decode_token, rotate_session,
}
use black_soil_loop_server.Auth.Sessions.RoundTrip.{
  TokenLaws, Refused, SameSession, issue_tokens-replaces, issue_tokens-accepted,
}
use black_soil_loop_server.Auth.Api.{
  RefreshCall, Answer, refresh_user, user_view, or_empty, set_cookies, refresh_user-csrf,
  answer_rotated,
}
use black_soil_loop_server.Tx.{Result, ok}

abbrev is_digit : Char → Bool
is_digit c = code c == 49

unfoldable written : ℕ → String → String
written zero s = cons "," s
written (suc n) s = cons "1" (written n s)

unfoldable number : String → ℕ
number empty = 0
number (cons c s) = let n = number s in if is_digit c then suc n else 0

unfoldable after_number : String → String
after_number empty = empty
after_number (cons c s) = let t = after_number s in if is_digit c then t else s

number-written : (n : ℕ) (s : String) → number (written n s) ≡ n
unfolding number written
number-written zero s = refl
number-written (suc n) s = ap suc (number-written n s)

after-written : (n : ℕ) (s : String) → after_number (written n s) ≡ s
unfolding after_number written
after-written zero s = refl
after-written (suc n) s = after-written n s

abbrev type_number : TokenType → ℕ
type_number TokenType.access = 0
type_number TokenType.refresh = 1

abbrev number_type : ℕ → TokenType
number_type zero = TokenType.access
number_type (suc n) = TokenType.refresh

abbrev crypto : Crypto
crypto = record {
  encode =
      λ c. written c.sub (written c.sid (written c.ver (written (type_number c.token_type) "")));
  decode = λ now s.
      let t = after_number s in
      let u = after_number t in
      Decoded.claims (record {
        sub = number s;
        sid = number t;
        ver = number u;
        iat = 0;
        token_type = number_type (number (after_number u));
        exp = 0;
        nonce = "";
      });
  token_hash = λ s. s;
  verify_password = λ p h. true;
}

abbrev Says : Claims → Decoded → Type 0
Says c (Decoded.claims d) = SameSession d c
Says c _ = Unit

number_type-number : (t : TokenType) → number_type (type_number t) ≡ t
number_type-number TokenType.access = refl
number_type-number TokenType.refresh = refl

decode-encode : (c : Claims) (now : ℕ) → Says c (crypto.decode now (crypto.encode c))
decode-encode c now =
    let s₃ = written (type_number c.token_type) "" in
    let s₂ = written c.ver s₃ in
    let s₁ = written c.sid s₂ in
    let t₁ = after-written c.sub s₁ in
    let t₂ : after_number (after_number (written c.sub s₁)) ≡ s₂ =
      ap after_number t₁ ∙ after-written c.sid s₂ in
    let t₃ : after_number (after_number (after_number (written c.sub s₁))) ≡ s₃ =
      ap after_number t₂ ∙ after-written c.ver s₃ in
    (
      number-written c.sub s₁,
      ap number t₁ ∙ number-written c.sid s₂,
      ap number t₂ ∙ number-written c.ver s₃,
      ap (λ x. number_type (number x)) t₃
          ∙ ap number_type (number-written (type_number c.token_type) "")
          ∙ number_type-number c.token_type,
    )

crypto-TokenLaws : TokenLaws crypto
crypto-TokenLaws = record {
  faithful = λ c d now e. subst (Says c) e (decode-encode c now);
  fresh = λ c now issued open_still. (_, refl);
}

abbrev settings : Settings
settings = record {
  access_token_life = 9_000_000;
  refresh_token_life = 90_000_000;
  idle_timeout = 50;
}

abbrev before : Db
before = db_with [] []

abbrev access_token : String
access_token =
    crypto.encode (session_claims crypto settings 20 "n" 1 100 2 TokenType.access 9_000_020 "")

abbrev tokens : IssuedTokens
tokens = record {
  access_token = access_token;
  refresh_token =
      crypto.encode
        (session_claims crypto settings 20 "n" 1 100 2 TokenType.refresh 90_000_020 "n");
  access_expires_at = 9_000_020;
  refresh_expires_at = 90_000_020;
}

abbrev logged_in : Db
logged_in = state_of before (issue_tokens crypto settings 20 "n" driver before)

issued : issue_tokens crypto settings 20 "n" driver before ≡ ok (tokens, logged_in)
unfolding issue_tokens
issued = refl

issue_tokens-accepted_example :
    (get_current_user crypto settings 60 "n" (some access_token) logged_in).0
    ≡ ok (record driver { session_version = 2 })
issue_tokens-accepted_example =
    issue_tokens-accepted crypto settings crypto-TokenLaws 20 60 "n" driver tokens before logged_in
      refl refl refl issued (omega arith) (omega arith) (omega arith)

-- The token of version 1 that the driver had.
abbrev old : Claims
old = session_claims crypto settings 3 "n" 1 61 1 TokenType.access 9_000_000 ""

issue_tokens-replaces_example :
    Refused (get_current_user crypto settings 60 "n" (some (crypto.encode old)) logged_in) logged_in
issue_tokens-replaces_example =
    issue_tokens-replaces crypto settings crypto-TokenLaws 20 60 "n" driver tokens before logged_in
      old refl refl (omega arith) issued

abbrev request : RefreshCall
request = record {
  refresh_token = none;
  refresh_cookie = some tokens.refresh_token;
  csrf_cookie = some "csrf";
  csrf_header = some "csrf";
}

abbrev refreshed : Result Answer × Db
refreshed = refresh_user crypto settings 40 "m" "csrf2" request false logged_in

abbrev answer : Answer
answer = record {
  payload = record {
    access_token =
        crypto.encode (session_claims crypto settings 40 "m" 1 101 3 TokenType.access 9_000_040 "");
    refresh_token = none;
    access_expires_at = 9_000_040;
    refresh_expires_at = 90_000_040;
    idle_timeout = 50;
    csrf_token = some "csrf2";
    user = user_view driver;
  };
  cookies = set_cookies crypto settings 40 "m" "csrf2" (record tokens {
    refresh_token =
        crypto.encode
          (session_claims crypto settings 40 "m" 1 101 3 TokenType.refresh 90_000_040 "m");
  });
}

refresh_answer :
    refresh_user crypto settings 40 "m" "csrf2" request false logged_in ≡ (ok answer, refreshed.1)
unfolding refresh_user written answer_rotated rotate_refresh_token rotate_checked refreshable
    decode_token number after_number issue_tokens rotate_session
refresh_answer = refl

refresh_user-csrf_example :
    (or_empty request.csrf_cookie ≢ "")
    × (or_empty request.csrf_header ≡ or_empty request.csrf_cookie)
refresh_user-csrf_example =
    refresh_user-csrf crypto settings 40 "m" "csrf2" request false answer logged_in refreshed.1 refl
      refresh_answer
