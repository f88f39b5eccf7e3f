-- ===== src/B02/Login.antt =====
-- `wechat_login` of app/b02/main.py. The call of the WeChat service is a parameter: the openid that it answers
-- for a code, "" for none.
use text.Mathlib.Text.{starts_with}
use black_soil_loop_server.Prelude.{
  String, Bool, true, false, not, ◌&&◌, ◌||◌, Option, none, some, str_eq, find,
}
use black_soil_loop_server.Tx.{◌>>=◌, ◌>>◌, Tx, gets, raise_if, or_raise}
use black_soil_loop_server.Text.{drop_chars}
use black_soil_loop_server.Models.{User, Instant}
use black_soil_loop_server.Auth.Sessions.{Crypto, Settings}
use black_soil_loop_server.Errors.{error, ErrorCode}
use black_soil_loop_server.Auth.Api.{Answer, issue_user_tokens}

-- The settings that the call reads.
pub record WechatSettings : Type 0 where
  pub is_production : Bool
  pub wechat_app_id : String
  pub wechat_app_secret : String

abbrev pub is_demo : WechatSettings → String → Bool
is_demo settings code = not settings.is_production && starts_with code "demo:"

abbrev pub has_openid : String → User → Bool
has_openid openid user = elim user.wechat_openid [ none ↦ false | some id ↦ str_eq id openid ]

-- The user of a demonstration code, or of the openid that WeChat knows for the code.
unfoldable pub wechat_user : WechatSettings → (String → String) → String → Tx (Option User)
wechat_user settings jscode2session code = elim (is_demo settings code) [
  | true ↦ gets (λ db. find (λ u. str_eq u.username (drop_chars 5 code)) db.users)
  | false ↦ (do
    raise_if (str_eq settings.wechat_app_id "" || str_eq settings.wechat_app_secret "")
        (error ErrorCode.wechat_not_configured 503)
    let openid = jscode2session code
    raise_if (str_eq openid "") (error ErrorCode.wechat_login_failed 401)
    gets (λ db. find (has_openid openid) db.users))
]

module _ (crypto : Crypto) (settings : Settings) (now : Instant) (nonce csrf_token : String) where
  unfoldable pub wechat_login : WechatSettings → (String → String) → String → Tx Answer
  wechat_login wechat jscode2session code = do
    found ← wechat_user wechat jscode2session code
    user ← or_raise found (error ErrorCode.wechat_account_unbound 403)
    raise_if (not user.active) (error ErrorCode.wechat_account_unbound 403)
    issue_user_tokens crypto settings now nonce csrf_token user true
