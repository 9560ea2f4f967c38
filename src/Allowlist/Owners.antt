-- ===== src/Allowlist/Owners.antt =====
-- allowlist.ts: the configured owners against what the allowlist answers.
use line_deno_bot.Prelude.{
  ◌≡◌, refl, ◌↔◌, inl, inr, true, Option, none, some, List, [], ◌∷◌, arith, any, In, Option-cases,
  subst, is_some,
}
use line_deno_bot.Prelude.Text.{Text, text_eq, text_beq, text_beq_iff}
use line_deno_bot.Prelude.Dict.{lookup, insert, lookup-insert, IsDict}
use line_deno_bot.Allowlist.{ByOwner, fill, new_allowlist, allows, is_restricted}

abbrev or_before : Option (List Text) → Option (List Text) → Option (List Text)
or_before none before = before
or_before (some ids) before = some ids

lookup-fill :
    (owner : Text) (by_owner entries : ByOwner)
    → IsDict entries
    → lookup owner (fill by_owner entries)
      ≡ or_before (lookup owner entries) (lookup owner by_owner)
unfolding fill lookup
lookup-fill owner by_owner [] d = refl
lookup-fill owner by_owner ((j, ids) ∷ entries) d = ground (
  arith,
  lookup-fill owner (insert j ids by_owner) entries d.1,
  lookup-insert j owner ids by_owner,
  text_beq_iff j owner,
)

lookup-new_allowlist :
    (owner : Text) (entries : ByOwner)
    → IsDict entries
    → lookup owner (new_allowlist entries) ≡ lookup owner entries
unfolding new_allowlist lookup
lookup-new_allowlist owner entries d = ground (arith, lookup-fill owner [] entries d)

any-In : (sender : Text) (ids : List Text) → (any (text_beq sender) ids ≡ true) ↔ In sender ids
any-In sender [] = ground arith
any-In sender (id ∷ ids) = ground (arith, text_beq_iff sender id, any-In sender ids)

-- From entries with one list for each owner: a sender is allowed just when no list of the owner
-- leaves it out, so an owner without a list allows anyone and an empty list nobody; and an owner is
-- restricted just when it has a list.
pub allows-new_allowlist :
    (entries : ByOwner) (owner sender : Text)
    → IsDict entries
    → ((allows (new_allowlist entries) owner sender ≡ true)
        ↔ ((ids : List Text) → lookup owner entries ≡ some ids → In sender ids))
      × (is_restricted (new_allowlist entries) owner ≡ is_some (lookup owner entries))
unfolding allows is_restricted
allows-new_allowlist entries owner sender d =
    let same = lookup-new_allowlist owner entries d in
    elim (Option-cases (lookup owner entries)) [
      | inl e ↦ rw (same, e) ((λ p ids q. absurd (ground (arith, q)), λ h. refl), refl)
      | inr (ids, e) ↦
          let (to, from) = any-In sender ids in
          rw (same, e)
            (
              (
                λ p ids' q. let i : ids ≡ ids' = ground (arith, q) in subst (In sender) i (to p),
                λ h. from (h ids refl),
              ),
              refl,
            )
    ]
