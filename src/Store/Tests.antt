-- ===== src/Store/Tests.antt =====
-- Runs of the map on small inputs.
use line_deno_bot.Prelude.{ℕ, ◌≡◌, refl, none, some, List, [], ◌∷◌, arith, if◌then◌else◌, leb}
use line_deno_bot.Prelude.Text.{text, text_eq}
use line_deno_bot.Prelude.Dict.{lookup}
use line_deno_bot.Store.{BoundedTtlMap, create, get, set}
use line_deno_bot.Store.Bounds.{IsValid, run-create-IsValid, Call, run}
use line_deno_bot.Store.Bounds
use line_deno_bot.Store.Reads.{lookup-sets, get-set_self, sets}

abbrev small : BoundedTtlMap ℕ
small = record { entries = []; ttl_ms = 10; max_entries = 2 }

small-IsValid : IsValid small
small-IsValid = record { distinct = tt; bounded = omega arith; positive = omega arith }

abbrev three_calls : List (Call ℕ)
three_calls =
    Bounds.sets 1 (text "a") 1 ∷ Bounds.sets 2 (text "b") 2 ∷ Bounds.sets 3 (text "c") 3 ∷ []

run-create-IsValid_example : IsValid (run small three_calls)
unfolding create
run-create-IsValid_example = run-create-IsValid 10 2 small three_calls refl

lookup-sets_example :
    lookup (text "a") (sets (set 1 (text "a") 7 small) ((2, text "b", 8) ∷ [])).entries
    ≡ some (record { value = 7; expires_at = 11 })
lookup-sets_example =
    lookup-sets 1 (text "a") 7 small ((2, text "b", 8) ∷ []) small-IsValid
      ((λ e. ground (arith, e)), tt) (omega arith)

get-set_self_example :
    (get 5 (text "a") (set 1 (text "a") 7 small)).1 ≡ (if leb 11 5 then none else some 7)
get-set_self_example = get-set_self 1 5 (text "a") 7 small small-IsValid
