-- ===== src/Tests/Limiter.antt =====
-- Examples for the limiter: a second request in a window of ten instants, of which two are allowed.
use black_soil_loop_server.Prelude.{
  ◌≡◌, refl, [], ◌∷◌, length, ltb, arith, String, Bool-cases, List, str_eq, ℕ, inl, if◌then◌else◌,
  inr,
}
use black_soil_loop_server.RateLimit.{Buckets, bucket, allow}
use black_soil_loop_server.RateLimit.Window.{recent, Tracks, is_admitted}
use black_soil_loop_server.RateLimit.Window.Keys.{TracksAll, with_call, allow-TracksAll}

abbrev buckets : Buckets
buckets = ("client", 1 ∷ 20 ∷ []) ∷ []

abbrev history : String → List ℕ
history key = if str_eq "client" key then 1 ∷ 20 ∷ [] else []

tracked : Tracks 20 10 (1 ∷ 20 ∷ []) (1 ∷ 20 ∷ [])
tracked = record {
  ordered = (omega arith, (omega arith, tt), (omega arith, tt, tt));
  agrees = λ later h. refl;
}

untracked : Tracks 20 10 [] []
untracked = record { ordered = tt; agrees = λ later h. refl }

all_tracked : TracksAll 20 10 buckets history
unfolding bucket
all_tracked = record {
  distinct = (refl, tt);
  tracks = λ key. elim (Bool-cases (str_eq "client" key)) [
    | inl same ↦ rw same tracked
    | inr apart ↦ rw apart untracked
  ];
}

allow-TracksAll_example :
    let fits = ltb (length (recent 25 10 (history "client"))) 2 in
    (is_admitted (allow 25 "client" 2 10 buckets).1 ≡ fits)
    × TracksAll 25 10 (allow 25 "client" 2 10 buckets).0 (with_call "client" fits 25 history)
allow-TracksAll_example =
    allow-TracksAll 20 25 10 2 "client" history buckets (omega arith) (omega arith) all_tracked
