-- ===== src/Prelude/Dict.antt =====
-- A JavaScript `Map`: entries in insertion order, the oldest first. `set` writes an existing key in
-- its place and appends a new one; `delete` takes an entry out.
use line_deno_bot.Prelude.{
  suc, ◌+◌, ◌≤◌, ◌≡◌, refl, inl, inr, Bool, false, Option, none, some, List, [], ◌∷◌, ◌++◌, arith,
  if◌then◌else◌, Eq, length, Bool-cases, subst, is_some, All,
}

module _ {K : Type 0} {V : Type 0} ⦃eq : Eq K⦄ where
  unfoldable pub lookup : K → List (K × V) → Option V
  lookup k [] = none
  lookup k ((j, v) ∷ m) = if eq.beq j k then some v else lookup k m

  unfoldable pub delete : K → List (K × V) → List (K × V)
  delete k [] = []
  delete k ((j, v) ∷ m) = if eq.beq j k then m else (j, v) ∷ delete k m

  unfoldable pub insert : K → V → List (K × V) → List (K × V)
  insert k v [] = (k, v) ∷ []
  insert k v ((j, w) ∷ m) = if eq.beq j k then (j, v) ∷ m else (j, w) ∷ insert k v m

  abbrev pub has : K → List (K × V) → Bool
  has k m = is_some (lookup k m)

  -- No key stands twice: each entry's key is missing from the entries behind it.
  abbrev pub IsDict : List (K × V) → Type 0
  IsDict [] = Unit
  IsDict ((k, v) ∷ m) = (lookup k m ≡ none) × IsDict m

  pub lookup-insert :
      (k j : K) (v : V) (m : List (K × V))
      → lookup j (insert k v m) ≡ (if eq.beq k j then some v else lookup j m)
  unfolding lookup insert
  lookup-insert k j v [] = refl
  lookup-insert k j v ((i, w) ∷ m) =
      ground (arith, eq.beq_iff k j, eq.beq_iff i k, eq.beq_iff i j, lookup-insert k j v m)

  pub lookup-delete_ne :
      (k j : K) (m : List (K × V)) → eq.beq k j ≡ false → lookup j (delete k m) ≡ lookup j m
  unfolding lookup delete
  lookup-delete_ne k j [] h = refl
  lookup-delete_ne k j ((i, w) ∷ m) h =
      ground (arith, eq.beq_iff k j, eq.beq_iff i k, eq.beq_iff i j, lookup-delete_ne k j m)

  pub delete_absent : (k : K) (m : List (K × V)) → lookup k m ≡ none → delete k m ≡ m
  unfolding lookup delete
  delete_absent k [] h = refl
  delete_absent k ((i, w) ∷ m) h = ground (arith, delete_absent k m)

  pub lookup-delete : (k : K) (m : List (K × V)) → IsDict m → lookup k (delete k m) ≡ none
  unfolding lookup delete
  lookup-delete k [] d = refl
  lookup-delete k ((i, w) ∷ m) d = ground (arith, eq.beq_iff i k, lookup-delete k m d.1)

  pub lookup-delete-none :
      (k j : K) (m : List (K × V)) → lookup j m ≡ none → lookup j (delete k m) ≡ none
  unfolding lookup delete
  lookup-delete-none k j [] h = refl
  lookup-delete-none k j ((i, w) ∷ m) h = ground (arith, lookup-delete-none k j m)

  pub delete-IsDict : (k : K) (m : List (K × V)) → IsDict m → IsDict (delete k m)
  unfolding delete
  delete-IsDict k [] d = tt
  delete-IsDict k ((i, w) ∷ m) d =
      ground (arith, lookup-delete-none k i m d.0, delete-IsDict k m d.1)

  pub insert-IsDict : (k : K) (v : V) (m : List (K × V)) → IsDict m → IsDict (insert k v m)
  unfolding insert lookup
  insert-IsDict k v [] d = (refl, tt)
  insert-IsDict k v ((i, w) ∷ m) d =
      ground (arith, eq.beq_iff i k, eq.beq_iff k i, lookup-insert k i v m, insert-IsDict k v m d.1)

  pub length-delete-le : (k : K) (m : List (K × V)) → length (delete k m) ≤ length m
  unfolding delete
  length-delete-le k [] = omega arith
  length-delete-le k ((i, w) ∷ m) = ground (arith, length-delete-le k m)

  pub length-delete-some :
      (k : K) (v : V) (m : List (K × V)) → lookup k m ≡ some v → length (delete k m) + 1 ≡ length m
  unfolding lookup delete
  length-delete-some k v [] h = cc
  length-delete-some k v ((i, w) ∷ m) h = ground (arith, length-delete-some k v m)

  -- A new key is appended at the end.
  pub insert_absent :
      (k : K) (v : V) (m : List (K × V)) → lookup k m ≡ none → insert k v m ≡ m ++ (k, v) ∷ []
  unfolding lookup insert
  insert_absent k v [] h = refl
  insert_absent k v ((i, w) ∷ m) h = ground (arith, insert_absent k v m)

  pub length-insert :
      (k : K) (v : V) (m : List (K × V))
      → length (insert k v m) ≡ (if has k m then length m else suc (length m))
  unfolding lookup insert
  length-insert k v [] = refl
  length-insert k v ((i, w) ∷ m) = ground (arith, length-insert k v m)

  -- The predicate `P` on values holds of every entry.
  pub All-lookup :
      (P : V → Type 0) (k : K) (v : V) (m : List (K × V))
      → All (λ e. P e.1) m
      → lookup k m ≡ some v
      → P v
  unfolding lookup
  All-lookup P k v [] h e = cc
  All-lookup P k v ((i, w) ∷ m) h e = elim (Bool-cases (eq.beq i k)) [
    | inl hit ↦ let same : w ≡ v = ground arith in subst P same h.0
    | inr miss ↦ All-lookup P k v m h.1 (ground arith)
  ]
