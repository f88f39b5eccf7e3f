-- ===== src/Text.antt =====
-- `text.replace(old, new, 1)`, for a text `old` that is not empty.
use Prim.Native.String.{[], ◌∷◌, ◌++◌}
use text.Mathlib.Text.{starts_with}
use black_soil_loop_server.Prelude.{ℕ, zero, suc, String, if◌then◌else◌}

-- The number of characters, and the text behind the first `n` of them.
unfoldable pub count_chars : String → ℕ
count_chars [] = 0
count_chars (c ∷ s) = suc (count_chars s)

unfoldable pub drop_chars : ℕ → String → String
drop_chars zero s = s
drop_chars (suc n) [] = []
drop_chars (suc n) (c ∷ s) = drop_chars n s

unfoldable pub replace_first : String → String → String → String
replace_first old new [] = []
replace_first old new (c ∷ s) =
    let rest = replace_first old new s in
    if starts_with (c ∷ s) old then new ++ drop_chars (count_chars old) (c ∷ s) else c ∷ rest
