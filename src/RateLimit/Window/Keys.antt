-- ===== src/RateLimit/Window/Keys.antt =====
-- The buckets of all keys beside the histories of admitted calls of each.
use black_soil_loop_server.Prelude.{
  ◌≡◌, refl, String, ℕ, List, str_eq, any, Bool, false, Bool-cases, ◌≤◌, if◌then◌else◌, ◌<◌, arith,
  inl, [], ltb, leb, eq_iff, length, inr, ◌∙◌, ◌∷◌, ap, ◌++◌, sym,
}
use black_soil_loop_server.RateLimit.{
  Buckets, store, drop_empty, bucket, sweep, decide, allow, expire,
}
use black_soil_loop_server.RateLimit.Window.{
  Tracks, InOrder-later, after, recent, is_admitted, allow-Tracks,
}

-- The keys of the dict are different from each other.
abbrev pub Distinct : Buckets → Type 0
Distinct [] = Unit
Distinct ((name, rows) ∷ rest) = (any (λ e. str_eq e.0 name) rest ≡ false) × Distinct rest

any-store_other :
    (name key : String) (rows : List ℕ) (buckets : Buckets)
    → str_eq key name ≡ false
    → any (λ e. str_eq e.0 name) (store key rows buckets) ≡ any (λ e. str_eq e.0 name) buckets
unfolding store
any-store_other name key rows [] h = ground (arith, h)
any-store_other name key rows ((n, old) ∷ rest) h =
    ground (arith, h, any-store_other name key rows rest h)

str_eq-false-sym : (a b : String) → str_eq a b ≡ false → str_eq b a ≡ false
str_eq-false-sym a b h = elim (Bool-cases (str_eq b a)) [
  | inl same ↦ absurd (ground (arith, eq_iff b a, eq_iff a b))
  | inr other ↦ other
]

Distinct-store :
    (key : String) (rows : List ℕ) (buckets : Buckets)
    → Distinct buckets
    → Distinct (store key rows buckets)
unfolding store
Distinct-store key rows [] d = (refl, tt)
Distinct-store key rows ((name, old) ∷ rest) (fresh, d) = elim (Bool-cases (str_eq name key)) [
  | inl here ↦ rw here (fresh, d)
  | inr other ↦ rw other (
    any-store_other name key rows rest (str_eq-false-sym name key other) ∙ fresh,
    Distinct-store key rows rest d,
  )
]

any-drop_empty :
    (name : String) (buckets : Buckets)
    → any (λ e. str_eq e.0 name) buckets ≡ false
    → any (λ e. str_eq e.0 name) (drop_empty buckets) ≡ false
unfolding drop_empty
any-drop_empty name [] h = refl
any-drop_empty name ((n, []) ∷ rest) h = any-drop_empty name rest (ground arith)
any-drop_empty name ((n, t ∷ rows) ∷ rest) h = ground (arith, any-drop_empty name rest)

Distinct-drop_empty : (buckets : Buckets) → Distinct buckets → Distinct (drop_empty buckets)
unfolding drop_empty
Distinct-drop_empty [] d = tt
Distinct-drop_empty ((name, []) ∷ rest) (fresh, d) = Distinct-drop_empty rest d
Distinct-drop_empty ((name, t ∷ rows) ∷ rest) (fresh, d) =
    (any-drop_empty name rest fresh, Distinct-drop_empty rest d)

bucket_absent :
    (key : String) (buckets : Buckets)
    → any (λ e. str_eq e.0 key) buckets ≡ false
    → bucket key buckets ≡ []
unfolding bucket
bucket_absent key [] h = refl
bucket_absent key ((name, rows) ∷ rest) h = ground (arith, bucket_absent key rest)

-- Where the keys are distinct, the sweep changes the bucket of no key.
bucket-drop_empty_same :
    (key : String) (buckets : Buckets)
    → Distinct buckets
    → bucket key (drop_empty buckets) ≡ bucket key buckets
unfolding bucket drop_empty
bucket-drop_empty_same key [] d = refl
bucket-drop_empty_same key ((name, []) ∷ rest) (fresh, d) = elim (Bool-cases (str_eq name key)) [
  | inl here ↦
      let same : name ≡ key = (eq_iff name key).0 here in
      let absent : bucket key rest ≡ [] =
        bucket_absent key rest (ap (λ k. any (λ e. str_eq e.0 k) rest) (sym same) ∙ fresh) in
      rw here (bucket-drop_empty_same key rest d ∙ absent)
  | inr other ↦ rw other (bucket-drop_empty_same key rest d)
]
bucket-drop_empty_same key ((name, t ∷ rows) ∷ rest) (fresh, d) =
    ground (arith, bucket-drop_empty_same key rest d)

bucket-store_other :
    (other key : String) (rows : List ℕ) (buckets : Buckets)
    → str_eq key other ≡ false
    → bucket other (store key rows buckets) ≡ bucket other buckets
unfolding bucket store
bucket-store_other other key rows [] h = ground (arith, h)
bucket-store_other other key rows ((name, old) ∷ rest) h = elim (Bool-cases (str_eq name key)) [
  | inl here ↦
      let same : name ≡ key = (eq_iff name key).0 here in
      let apart : str_eq name other ≡ false = ap (λ n. str_eq n other) same ∙ h in
      ground (arith, apart, here)
  | inr elsewhere ↦ ground (arith, elsewhere, bucket-store_other other key rows rest h)
]

-- A write for a key, with the sweep or without it, keeps the keys distinct and the other buckets.
abbrev Keeps : String → Buckets → Buckets → Type 0
Keeps key before after =
    Distinct after
    × ((other : String) → str_eq key other ≡ false → bucket other after ≡ bucket other before)

store-Keeps :
    (key : String) (rows : List ℕ) (buckets : Buckets)
    → Distinct buckets
    → Keeps key buckets (store key rows buckets)
store-Keeps key rows buckets d =
    (Distinct-store key rows buckets d, λ other h. bucket-store_other other key rows buckets h)

sweep-Keeps :
    (key : String) (rows : List ℕ) (buckets : Buckets)
    → Distinct buckets
    → Keeps key buckets (sweep (store key rows buckets))
unfolding sweep
sweep-Keeps key rows buckets d =
    let stored = store key rows buckets in
    let (d', kept) = store-Keeps key rows buckets d in
    elim (Bool-cases (ltb 10_000 (length stored))) [
      | inl many ↦ rw many (
        Distinct-drop_empty stored d',
        λ other h. bucket-drop_empty_same other stored d' ∙ kept other h,
      )
      | inr few ↦ rw few (d', kept)
    ]

decide-Keeps :
    (now window limit : ℕ) (key : String) (rows : List ℕ) (buckets : Buckets)
    → Distinct buckets
    → Keeps key buckets (decide now window limit key rows buckets).0
unfolding decide
decide-Keeps now window limit key [] buckets d = elim (Bool-cases (leb limit 0)) [
  | inl shut ↦ rw shut (store-Keeps key [] buckets d)
  | inr may ↦ rw may (sweep-Keeps key (now ∷ []) buckets d)
]
decide-Keeps now window limit key (t ∷ rows) buckets d =
    elim (Bool-cases (leb limit (length (t ∷ rows)))) [
      | inl full ↦ rw full (store-Keeps key (t ∷ rows) buckets d)
      | inr room ↦ rw room (sweep-Keeps key ((t ∷ rows) ++ now ∷ []) buckets d)
    ]

allow-Keeps :
    (now window limit : ℕ) (key : String) (buckets : Buckets)
    → Distinct buckets
    → Keeps key buckets (allow now key limit window buckets).0
unfolding allow
allow-Keeps now window limit key buckets d =
    decide-Keeps now window limit key (expire now window (bucket key buckets)) buckets d

Tracks-later :
    (last now window : ℕ) (rows history : List ℕ)
    → last ≤ now
    → Tracks last window rows history
    → Tracks now window rows history
Tracks-later last now window rows history le t = record {
  ordered = InOrder-later last now rows le t.ordered;
  agrees = λ later h. t.agrees later (omega arith);
}

-- The bucket of every key answers for the history of the key.
pub record TracksAll (now window : ℕ) (buckets : Buckets) (history : String → List ℕ) : Type 0 where
  pub distinct : Distinct buckets
  pub tracks : (key : String) → Tracks now window (bucket key buckets) (history key)

-- The histories after a call of a key.
abbrev pub with_call : String → Bool → ℕ → (String → List ℕ) → String → List ℕ
with_call key is_let now history other =
    if str_eq key other then after is_let (history key) now else history other

-- Where the limit is positive and the buckets, of distinct keys, track the histories of all keys, a call of a
-- key at `now`, not before the last one, is admitted exactly when the admitted calls of the key in the
-- last window, over its whole history, are fewer than the limit; the buckets, still of distinct keys, go
-- on to track the histories of all keys, with the call added to that of its key if it was admitted.
pub allow-TracksAll :
    (last now window limit : ℕ) (key : String) (history : String → List ℕ) (buckets : Buckets)
    → 0 < limit
    → last ≤ now
    → TracksAll last window buckets history
    → let fits = ltb (length (recent now window (history key))) limit in
      (is_admitted (allow now key limit window buckets).1 ≡ fits)
      × TracksAll now window (allow now key limit window buckets).0 (with_call key fits now history)
allow-TracksAll last now window limit key history buckets positive le t =
    let (verdict, own) =
      allow-Tracks last now window limit key (history key) buckets positive le (t.tracks key) in
    let (d, kept) = allow-Keeps now window limit key buckets t.distinct in
    (
      verdict,
      record {
        distinct = d;
        tracks = λ other. elim (Bool-cases (str_eq key other)) [
          | inl same ↦
              let here : key ≡ other = (eq_iff key other).0 same in rw same (rw (← here) own)
          | inr apart ↦
              rw (apart, kept other apart)
                (Tracks-later last now window (bucket other buckets) (history other) le
                  (t.tracks other))
        ];
      },
    )
