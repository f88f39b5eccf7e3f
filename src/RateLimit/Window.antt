-- ===== src/RateLimit/Window.antt =====
-- The buckets of the limiter beside the histories of admitted calls.
pub mod Keys
use black_soil_loop_server.Prelude.{
  ℕ, ◌+◌, ◌≤◌, ◌<◌, ◌≡◌, ◌≢◌, refl, String, Bool, true, false, List, [], ◌∷◌, ◌++◌, eq_iff, leb,
  ltb, arith, if◌then◌else◌, length, All, Bool-cases, inl, inr, ◌∙◌, ap, sym,
}
use black_soil_loop_server.RateLimit.{
  Buckets, bucket, store, expire, drop_empty, sweep, Verdict, admitted, decide, allow,
}

-- The admitted instants of the last window, before `now`.
unfoldable pub recent : ℕ → ℕ → List ℕ → List ℕ
recent now window [] = []
recent now window (t ∷ rows) =
    let rest = recent now window rows in if leb (t + window) now then rest else t ∷ rest

-- The rows of a bucket are in the order of time, and none lies after `now`.
abbrev pub InOrder : ℕ → List ℕ → Type 0
InOrder now [] = Unit
InOrder now (t ∷ rows) = (t ≤ now) × All (λ r. t ≤ r) rows × InOrder now rows

recent-fresh :
    (now window : ℕ) (t : ℕ) (rows : List ℕ)
    → now < t + window
    → All (λ r. t ≤ r) rows
    → recent now window rows ≡ rows
unfolding recent
recent-fresh now window t [] h a = refl
recent-fresh now window t (r ∷ rows) h (le, a) = ground (arith, recent-fresh now window t rows)

-- Popping from the front leaves exactly the instants of the window.
expire-recent :
    (now window : ℕ) (rows : List ℕ)
    → InOrder now rows
    → expire now window rows ≡ recent now window rows
unfolding expire recent
expire-recent now window [] h = refl
expire-recent now window (t ∷ rows) (le, a, h) =
    ground (arith, expire-recent now window rows h, recent-fresh now window t rows)

recent_later :
    (now later window : ℕ) (rows : List ℕ)
    → now ≤ later
    → recent later window (recent now window rows) ≡ recent later window rows
unfolding recent
recent_later now later window [] h = refl
recent_later now later window (t ∷ rows) h = ground (arith, recent_later now later window rows)

recent-append :
    (now window : ℕ) (xs ys : List ℕ)
    → recent now window (xs ++ ys) ≡ recent now window xs ++ recent now window ys
unfolding recent
recent-append now window [] ys = refl
recent-append now window (x ∷ xs) ys = ground (arith, recent-append now window xs ys)

All-recent :
    (now window t : ℕ) (rows : List ℕ)
    → All (λ r. t ≤ r) rows
    → All (λ r. t ≤ r) (recent now window rows)
unfolding recent
All-recent now window t [] h = tt
All-recent now window t (r ∷ rows) (le, h) = ground (arith, All-recent now window t rows h)

InOrder-recent :
    (now window : ℕ) (rows : List ℕ) → InOrder now rows → InOrder now (recent now window rows)
unfolding recent
InOrder-recent now window [] h = tt
InOrder-recent now window (t ∷ rows) (le, a, h) =
    ground (arith, InOrder-recent now window rows h, All-recent now window t rows a)

All-snoc :
    (t now : ℕ) (rows : List ℕ)
    → t ≤ now
    → All (λ r. t ≤ r) rows
    → All (λ r. t ≤ r) (rows ++ now ∷ [])
All-snoc t now [] le h = (le, tt)
All-snoc t now (r ∷ rows) le (l, h) = (l, All-snoc t now rows le h)

InOrder-snoc : (now : ℕ) (rows : List ℕ) → InOrder now rows → InOrder now (rows ++ now ∷ [])
InOrder-snoc now [] h = (omega arith, tt, tt)
InOrder-snoc now (t ∷ rows) (le, a, h) = (le, All-snoc t now rows le a, InOrder-snoc now rows h)

pub InOrder-later :
    (now later : ℕ) (rows : List ℕ) → now ≤ later → InOrder now rows → InOrder later rows
InOrder-later now later [] le h = tt
InOrder-later now later (t ∷ rows) le (l, a, h) =
    (omega arith, a, InOrder-later now later rows le h)

bucket-store :
    (key : String) (rows : List ℕ) (buckets : Buckets) → bucket key (store key rows buckets) ≡ rows
unfolding bucket store
bucket-store key rows [] = ground (arith, eq_iff key key)
bucket-store key rows ((name, old) ∷ rest) = ground (arith, bucket-store key rows rest)

-- The sweep forgets no bucket that holds an instant.
bucket-drop_empty :
    (key : String) (rows : List ℕ) (buckets : Buckets)
    → rows ≢ []
    → bucket key buckets ≡ rows
    → bucket key (drop_empty buckets) ≡ rows
unfolding bucket drop_empty
bucket-drop_empty key rows [] ne h = h
bucket-drop_empty key rows ((name, []) ∷ rest) ne h =
    ground (arith, bucket-drop_empty key rows rest ne)
bucket-drop_empty key rows ((name, t ∷ old) ∷ rest) ne h =
    ground (arith, bucket-drop_empty key rows rest ne)

snoc-ne-nil : (rows : List ℕ) (t : ℕ) → rows ++ t ∷ [] ≢ []
snoc-ne-nil [] t e = cc
snoc-ne-nil (r ∷ rows) t e = cc

bucket-sweep :
    (key : String) (t : ℕ) (rows : List ℕ) (buckets : Buckets)
    → bucket key (sweep (store key (rows ++ t ∷ []) buckets)) ≡ rows ++ t ∷ []
unfolding sweep
bucket-sweep key t rows buckets =
    let stored = bucket-store key (rows ++ t ∷ []) buckets in
    elim (Bool-cases (ltb 10_000 (length (store key (rows ++ t ∷ []) buckets)))) [
      | inl many ↦ rw many (
          bucket-drop_empty key (rows ++ t ∷ []) (store key (rows ++ t ∷ []) buckets)
            (snoc-ne-nil rows t) stored)
      | inr few ↦ rw few stored
    ]

-- The decision over the live instants: what is stored, and what is answered.
abbrev pub is_admitted : Verdict → Bool
is_admitted admitted = true
is_admitted _ = false

abbrev pub after : Bool → List ℕ → ℕ → List ℕ
after true rows now = rows ++ now ∷ []
after false rows now = rows

decide-cases :
    (now window limit : ℕ) (key : String) (rows : List ℕ) (buckets : Buckets)
    → 0 < limit
    → (is_admitted (decide now window limit key rows buckets).1 ≡ ltb (length rows) limit)
      × (bucket key (decide now window limit key rows buckets).0
          ≡ after (ltb (length rows) limit) rows now)
unfolding decide
decide-cases now window limit key [] buckets h = ground (arith, bucket-sweep key now [] buckets)
decide-cases now window limit key (t ∷ rows) buckets h =
    ground (arith, bucket-sweep key now (t ∷ rows) buckets, bucket-store key (t ∷ rows) buckets)

-- The bucket answers for the whole history of a key: they agree on every window from `now` on.
pub record Tracks (now window : ℕ) (rows history : List ℕ) : Type 0 where
  pub ordered : InOrder now rows
  pub agrees : (later : ℕ) → now ≤ later → recent later window rows ≡ recent later window history

after-recent :
    (b : Bool) (later window now : ℕ) (xs ys : List ℕ)
    → recent later window xs ≡ recent later window ys
    → recent later window (after b xs now) ≡ recent later window (after b ys now)
after-recent true later window now xs ys h =
    recent-append later window xs (now ∷ [])
    ∙ ap (λ zs. zs ++ recent later window (now ∷ [])) h
    ∙ sym (recent-append later window ys (now ∷ []))
after-recent false later window now xs ys h = h

after-InOrder :
    (b : Bool) (now : ℕ) (rows : List ℕ) → InOrder now rows → InOrder now (after b rows now)
after-InOrder true now rows h = InOrder-snoc now rows h
after-InOrder false now rows h = h

-- Where the limit is positive and the bucket of the key tracks its history, a call at `now`, not
-- before the last one, is admitted exactly when the admitted calls of the key in the last
-- window, over the whole history, are fewer than the limit; the bucket goes on to track the
-- history, with the call added if it was admitted.
pub allow-Tracks :
    (last now window limit : ℕ) (key : String) (history : List ℕ) (buckets : Buckets)
    → 0 < limit
    → last ≤ now
    → Tracks last window (bucket key buckets) history
    → (is_admitted (allow now key limit window buckets).1
        ≡ ltb (length (recent now window history)) limit)
      × Tracks now window
          (bucket key (allow now key limit window buckets).0)
          (after (ltb (length (recent now window history)) limit) history now)
unfolding allow
allow-Tracks last now window limit key history buckets positive le t =
    let rows = bucket key buckets in
    let ordered = InOrder-later last now rows le t.ordered in
    let live = expire-recent now window rows ordered in
    let same = t.agrees now le in
    let (verdict, stored) =
      decide-cases now window limit key (expire now window rows) buckets positive in
    let count : ltb (length (expire now window rows)) limit
        ≡ ltb (length (recent now window history)) limit =
      ap (λ xs. ltb (length xs) limit) (live ∙ same) in
    (
      verdict ∙ count,
      record {
        ordered =
            rw (stored, live)
              (after-InOrder _ now (recent now window rows)
                (InOrder-recent now window rows ordered));
        agrees = λ later h.
            rw (stored, count)
              (after-recent _ later window now (expire now window rows) history (
                ap (recent later window) live
                ∙ recent_later now later window rows h
                ∙ t.agrees later (omega arith)));
      },
    )
