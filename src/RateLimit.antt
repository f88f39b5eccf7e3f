-- ===== src/RateLimit.antt =====
-- app/shared/rate_limit.py: the limiter of requests. Each key has a bucket, the instants of its
-- admitted requests; an `asyncio.Lock` makes a call of `allow` one step. Time is in microseconds.
pub mod Window
use black_soil_loop_server.Prelude.{
  ℕ, ◌+◌, ◌-◌, ◌/◌, String, List, [], ◌∷◌, ◌++◌, str_eq, leb, ltb, if◌then◌else◌, length, max,
}

abbrev pub Buckets : Type 0
Buckets = List (String × List ℕ)

-- `self._requests[key]` of the defaultdict, without the entry that the access makes.
unfoldable pub bucket : String → Buckets → List ℕ
bucket key [] = []
bucket key ((name, rows) ∷ rest) = if str_eq name key then rows else bucket key rest

-- `self._requests[key] = rows`
unfoldable pub store : String → List ℕ → Buckets → Buckets
store key rows [] = (key, rows) ∷ []
store key rows ((name, old) ∷ rest) =
    if str_eq name key then (name, rows) ∷ rest else (name, old) ∷ store key rows rest

-- `while bucket and bucket[0] <= cutoff: bucket.popleft()`
unfoldable pub expire : ℕ → ℕ → List ℕ → List ℕ
expire now window [] = []
expire now window (t ∷ rows) =
    let rest = expire now window rows in if leb (t + window) now then rest else t ∷ rows

abbrev pub second : ℕ
second = 1_000_000

-- `max(1, int(window_seconds - (now - bucket[0])))`
abbrev pub retry_after : ℕ → ℕ → ℕ → ℕ
retry_after now window oldest = max 1 ((window - (now - oldest)) / second)

-- `{name: rows for name, rows in … if rows}`
unfoldable pub drop_empty : Buckets → Buckets
drop_empty [] = []
drop_empty ((name, []) ∷ rest) = drop_empty rest
drop_empty ((name, t ∷ rows) ∷ rest) = (name, t ∷ rows) ∷ drop_empty rest

-- More than 10,000 keys make the limiter forget the empty ones.
unfoldable pub sweep : Buckets → Buckets
sweep buckets = if ltb 10_000 (length buckets) then drop_empty buckets else buckets

-- The answer: admitted, the seconds to wait, or the IndexError of `bucket[0]` where the limit is 0
-- and the bucket is empty.
pub data Verdict : Type 0 where
  admitted : Verdict
  retry : ℕ → Verdict
  fault : Verdict

unfoldable pub decide : ℕ → ℕ → ℕ → String → List ℕ → Buckets → Buckets × Verdict
decide now window limit key [] buckets =
    if leb limit 0
    then (store key [] buckets, fault)
    else (sweep (store key (now ∷ []) buckets), admitted)
decide now window limit key (t ∷ rows) buckets =
    if leb limit (length (t ∷ rows))
    then (store key (t ∷ rows) buckets, retry (retry_after now window t))
    else (sweep (store key ((t ∷ rows) ++ now ∷ []) buckets), admitted)

unfoldable pub allow : ℕ → String → ℕ → ℕ → Buckets → Buckets × Verdict
allow now key limit window buckets =
    decide now window limit key (expire now window (bucket key buckets)) buckets
