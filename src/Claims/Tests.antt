-- ===== src/Claims/Tests.antt =====
-- Runs of the claim store on small inputs.
use line_deno_bot.Prelude.{ℕ, ◌≡◌, refl, List, [], ◌∷◌, All, arith, if◌then◌else◌}
use line_deno_bot.Prelude.Text.{Text, text, text_eq}
use line_deno_bot.Store.Bounds.{IsValid}
use line_deno_bot.Prelude.Dict.{lookup}
use line_deno_bot.Claims.{ClaimStore}
use line_deno_bot.Claims.Once.{wins, attempted, wins-attempted}
use line_deno_bot.Claims.Keys.{IsPlain, claim_key-injective}

abbrev empty_store : ClaimStore
empty_store = record { entries = []; ttl_ms = 10; max_entries = 4 }

empty_store-IsValid : IsValid empty_store
empty_store-IsValid = record { distinct = tt; bounded = omega arith; positive = omega arith }

abbrev attempts : List (ℕ × Text)
attempts = (3, text "a") ∷ (4, text "b") ∷ (5, text "a") ∷ []

wins-attempted_example :
    wins (text "a") attempts empty_store ≡ (if attempted (text "a") attempts then 1 else 0)
unfolding lookup
wins-attempted_example =
    wins-attempted (text "a") 3 attempts empty_store empty_store-IsValid refl
      ((omega arith, omega arith), ((omega arith, omega arith), ((omega arith, omega arith), tt)))
      (omega arith)

bm-IsPlain : All IsPlain (text "b" ∷ text "m" ∷ [])
bm-IsPlain = ((λ e. ground (arith, e), tt), ((λ e. ground (arith, e), tt), tt))

claim_key-injective_example : text "b" ∷ text "m" ∷ [] ≡ text "b" ∷ text "m" ∷ []
claim_key-injective_example =
    claim_key-injective (text "b" ∷ text "m" ∷ []) (text "b" ∷ text "m" ∷ []) refl bm-IsPlain
      bm-IsPlain refl
