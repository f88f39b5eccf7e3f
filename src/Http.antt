-- ===== src/Http.antt =====
-- `trace_middleware` of app/shared/http.py: the limit that a request counts under, and what is let through.
use Prim.Native.Char.{Char, code}
use Prim.Native.String.{[] as empty, ◌∷◌ as cons, ◌++◌ as joined}
use text.Mathlib.Text.{starts_with}
use black_soil_loop_server.Prelude.{
  ℕ, String, Bool, not, ◌&&◌, ◌||◌, Option, none, some, [], ◌∷◌, ◌==◌, str_eq, if◌then◌else◌, any,
}
use black_soil_loop_server.RateLimit.{Verdict, Buckets, allow}

-- What the middleware reads of a request; the limiter's window is the default of `allow`.
pub record WebRequest : Type 0 where
  pub path : String
  pub connecting_ip : Option String
  pub forwarded_for : Option String
  pub client_host : Option String

pub record RateLimits : Type 0 where
  pub device_rate_limit : ℕ
  pub auth_rate_limit : ℕ
  pub rate_limit : ℕ

-- Sixty seconds, in microseconds.
abbrev pub window : ℕ
window = 60_000_000

-- `split(",")[0]`
unfoldable pub first_part : String → String
first_part empty = empty
first_part (cons c s) = let rest = first_part s in if code c == b',' then empty else cons c rest

-- The characters below 256 that `str.strip` takes off.
abbrev pub is_space : Char → Bool
is_space c =
    any (λ n. n == code c) (9 ∷ 10 ∷ 11 ∷ 12 ∷ 13 ∷ 28 ∷ 29 ∷ 30 ∷ 31 ∷ 32 ∷ 133 ∷ 160 ∷ [])

unfoldable pub strip_left : String → String
strip_left empty = empty
strip_left (cons c s) = let rest = strip_left s in if is_space c then rest else cons c s

unfoldable pub strip_right : String → String
strip_right empty = empty
strip_right (cons c s) =
    let rest = strip_right s in if is_space c && str_eq rest "" then empty else cons c rest

-- `part in text`
unfoldable pub contains : String → String → Bool
contains part empty = str_eq part ""
contains part (cons c s) = let later = contains part s in starts_with (cons c s) part || later

abbrev pub host_or_unknown : Option String → String
host_or_unknown none = "unknown"
host_or_unknown (some host) = host

-- `a or b`
abbrev pub or_text : String → String → String
or_text a b = if str_eq a "" then b else a

abbrev pub header : Option String → String
header none = ""
header (some value) = value

unfoldable pub client_of : WebRequest → String
client_of request =
    or_text
      (strip_right (
        strip_left
          (or_text (header request.connecting_ip) (first_part (header request.forwarded_for)))))
      (host_or_unknown request.client_host)

-- The name of the scope and its limit.
unfoldable pub scope_of : RateLimits → String → String × ℕ
scope_of limits path =
    if starts_with path "/api/v1/device/"
    then ("device", limits.device_rate_limit)
    else if contains "/auth/" path
    then ("auth", limits.auth_rate_limit)
    else ("api", limits.rate_limit)

abbrev pub is_limited : String → Bool
is_limited path = starts_with path "/api/" && not (starts_with path "/api/v1/dashboard/events")

-- What becomes of a request: passed on, answered with 429 and the seconds to wait, or a fault of the limiter.
pub data Passage : Type 0 where
  passed : Passage
  too_many : ℕ → Passage
  failed : Passage

abbrev pub passage_of : Verdict → Passage
passage_of Verdict.admitted = passed
passage_of (Verdict.retry seconds) = too_many seconds
passage_of Verdict.fault = failed

unfoldable pub trace_middleware : ℕ → RateLimits → WebRequest → Buckets → Buckets × Passage
trace_middleware now limits request buckets =
    let (scope, limit) = scope_of limits request.path in
    let (buckets', verdict) =
      allow now (joined (client_of request) (joined ":" scope)) limit window buckets in
    if is_limited request.path then (buckets', passage_of verdict) else (buckets, passed)
