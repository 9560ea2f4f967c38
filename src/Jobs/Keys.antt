-- ===== src/Jobs/Keys.antt =====
-- job-key.ts: a job key names exactly one race.
use line_deno_bot.Prelude.{◌≡◌, refl, ◌↔◌, ap, Option, none, some, List, [], ◌∷◌, arith, All}
use line_deno_bot.Prelude.Text.{Text}
use line_deno_bot.Claims.Keys.{IsPlain, claim_key-injective}
use line_deno_bot.Jobs.{JobKeyInput, derive_job_key, key_of, derived_key, trimmed}

-- What a job is: the id that the game gave it, or the message, its sender, its room and the rule.
pub data Race : Type 0 where
  named : Text → Race
  observed : List Text → Race

abbrev parts : JobKeyInput → List Text
parts i = i.source_message_id ∷ i.sender_id ∷ i.room_id ∷ i.rule_id ∷ []

abbrev race_of : JobKeyInput → Option Text → Race
race_of i none = observed (parts i)
race_of i (some []) = observed (parts i)
race_of i (some (c ∷ id)) = named (c ∷ id)

abbrev pub race : JobKeyInput → Race
race i = race_of i (trimmed i.explicit_job_id)

abbrev pub IsPlainInput : JobKeyInput → Type 0
IsPlainInput i = All IsPlain (parts i)

same_parts :
    (i j : JobKeyInput)
    → IsPlainInput i
    → IsPlainInput j
    → derived_key i ≡ derived_key j
    → parts i ≡ parts j
unfolding derived_key
same_parts i j p q e = claim_key-injective (parts i) (parts j) refl p q (ground arith)

race_of-key :
    (i j : JobKeyInput) (a b : Option Text)
    → IsPlainInput i
    → IsPlainInput j
    → key_of i a ≡ key_of j b
    → race_of i a ≡ race_of j b
unfolding key_of derived_key
race_of-key i j none none p q e = ap observed (same_parts i j p q e)
race_of-key i j none (some []) p q e = ap observed (same_parts i j p q e)
race_of-key i j (some []) none p q e = ap observed (same_parts i j p q e)
race_of-key i j (some []) (some []) p q e = ap observed (same_parts i j p q e)
race_of-key i j none (some (d ∷ b)) p q e = absurd (ground arith)
race_of-key i j (some []) (some (d ∷ b)) p q e = absurd (ground arith)
race_of-key i j (some (c ∷ a)) none p q e = absurd (ground arith)
race_of-key i j (some (c ∷ a)) (some []) p q e = absurd (ground arith)
race_of-key i j (some (c ∷ a)) (some (d ∷ b)) p q e = ground arith

key_of-race :
    (i j : JobKeyInput) (a b : Option Text) → race_of i a ≡ race_of j b → key_of i a ≡ key_of j b
unfolding key_of derived_key
key_of-race i j none none e = ground arith
key_of-race i j none (some []) e = ground arith
key_of-race i j (some []) none e = ground arith
key_of-race i j (some []) (some []) e = ground arith
key_of-race i j none (some (d ∷ b)) e = cc
key_of-race i j (some []) (some (d ∷ b)) e = cc
key_of-race i j (some (c ∷ a)) none e = cc
key_of-race i j (some (c ∷ a)) (some []) e = cc
key_of-race i j (some (c ∷ a)) (some (d ∷ b)) e = ground arith

-- Two inputs whose ids are free of U+0000 have one key exactly when they are one race: the same
-- trimmed explicit id, or, where neither has one, the same message, sender, room and rule.
pub derive_job_key-race :
    (i j : JobKeyInput)
    → IsPlainInput i
    → IsPlainInput j
    → (derive_job_key i ≡ derive_job_key j) ↔ (race i ≡ race j)
unfolding derive_job_key
derive_job_key-race i j p q = (race_of-key i j _ _ p q, key_of-race i j _ _)
