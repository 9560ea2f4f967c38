-- ===== src/Claims/Keys.antt =====
-- claim-store.ts: U+0000 cannot stand in a LINE id, so a joined key names its parts.
use line_deno_bot.Prelude.{◌≡◌, refl, ◌≢◌, ap, List, [], ◌∷◌, ◌++◌, arith, length, All}
use line_deno_bot.Prelude.Text.{Text}
use line_deno_bot.Claims.{claim_key}

-- No code unit of the text is the delimiter.
abbrev pub IsPlain : Text → Type 0
IsPlain = All (λ c. c ≢ 0)

split : (x y r s : Text) → IsPlain x → IsPlain y → x ++ (0 ∷ r) ≡ y ++ (0 ∷ s) → (x ≡ y) × (r ≡ s)
split [] [] r s p q e = ground arith
split [] (d ∷ y) r s p q e = absurd (ground (arith, q.0))
split (c ∷ x) [] r s p q e = absurd (ground (arith, p.0))
split (c ∷ x) (d ∷ y) r s p q e = ground (arith, split x y r s p.1 q.1)

-- Two lists of as many delimiter-free parts that join to one key are the same list.
pub claim_key-injective :
    (xs ys : List Text)
    → length xs ≡ length ys
    → All IsPlain xs
    → All IsPlain ys
    → claim_key xs ≡ claim_key ys
    → xs ≡ ys
unfolding claim_key
claim_key-injective [] [] l p q e = refl
claim_key-injective [] (y ∷ ys) l p q e = absurd (omega arith)
claim_key-injective (x ∷ xs) [] l p q e = absurd (omega arith)
claim_key-injective (x ∷ []) (y ∷ []) l p q e = ap (λ a. a ∷ []) e
claim_key-injective (x ∷ []) (y ∷ z ∷ ys) l p q e = absurd (omega arith)
claim_key-injective (x ∷ w ∷ xs) (y ∷ []) l p q e = absurd (omega arith)
claim_key-injective (x ∷ w ∷ xs) (y ∷ z ∷ ys) l p q e =
    let (head, rest) = split x y (claim_key (w ∷ xs)) (claim_key (z ∷ ys)) p.0 q.0 e in
    ground (arith, head, claim_key-injective (w ∷ xs) (z ∷ ys) (omega arith) p.1 q.1 rest)
