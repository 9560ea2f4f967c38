-- ===== src/Topology/Owners.antt =====
-- topology.ts: what a topology without errors answers for the owners that its shards name.
use line_deno_bot.Prelude.{
  ◌≡◌, refl, ap, ◌∙◌, ◌⊎◌, inl, inr, not, ◌&&◌, Option, none, some, List, [], ◌∷◌, ◌++◌, filter,
  any, find, length, ◌==◌, arith, In, Bool-cases, Option-cases, subst,
}
use line_deno_bot.Prelude.Text.{Text, text_eq, text_beq, text_beq_iff}
use line_deno_bot.Prelude.Dict.{lookup, insert, lookup-insert}
use line_deno_bot.Topology.{
  ShardSpec, TopologyProblem, is_error, default_set, problem_if, other_worker, check_owners,
  assign_owners, check_shards, validate_topology, ShardTopology, register_owners, register, ok,
  create, created, worker_for, belongs_to,
}

abbrev IsClean : List TopologyProblem → Type 0
IsClean problems = filter is_error problems ≡ []

IsClean-append : (ps qs : List TopologyProblem) → IsClean (ps ++ qs) → IsClean ps × IsClean qs
IsClean-append [] qs h = (refl, h)
IsClean-append (p ∷ ps) qs h = ground (arith, IsClean-append ps qs)

abbrev id_of : Option ShardSpec → Option Text
id_of none = none
id_of (some shard) = some shard.worker_id

-- The two maps agree on each owner.
abbrev Agrees : List (Text × Text) → List (Text × ShardSpec) → Type 0
Agrees owning by_owner = (o : Text) → id_of (lookup o by_owner) ≡ lookup o owning

owners-Agrees :
    (shard : ShardSpec) (owners : List Text) (owning : List (Text × Text))
    (by_owner : List (Text × ShardSpec))
    → Agrees owning by_owner
    → Agrees (assign_owners shard.worker_id owners owning) (register_owners shard owners by_owner)
unfolding assign_owners register_owners
owners-Agrees shard [] owning by_owner h = h
owners-Agrees shard (j ∷ owners) owning by_owner h =
    owners-Agrees shard owners (insert j shard.worker_id owning) (insert j shard by_owner) (λ o.
      ground
        (arith, h o, lookup-insert j o shard.worker_id owning, lookup-insert j o shard by_owner))

-- Without a problem, an owner keeps its worker.
owners-stay :
    (w : Text) (owners : List Text) (owning : List (Text × Text)) (o v : Text)
    → IsClean (check_owners w owners owning)
    → lookup o owning ≡ some v
    → lookup o (assign_owners w owners owning) ≡ some v
unfolding check_owners assign_owners
owners-stay w [] owning o v clean h = h
owners-stay w (j ∷ owners) owning o v clean h =
    let (now, later) = IsClean-append (other_worker j w (lookup j owning)) _ clean in
    owners-stay w owners (insert j w owning) o v later (elim (Bool-cases (text_beq j o)) [
      | inl e ↦
          let same : j ≡ o = (text_beq_iff j o).0 e in
          let now' : IsClean (other_worker o w (lookup o owning)) =
            subst (λ i. IsClean (other_worker i w (lookup i owning))) same now in
          rw (lookup-insert j o w owning, e)
            (ap some (kept o (subst (λ l. IsClean (other_worker o w l)) h now')))
      | inr e ↦ rw (lookup-insert j o w owning, e) h
    ])
  where
    kept : (o : Text) → IsClean (other_worker o w (some v)) → w ≡ v
    kept o c = ground (arith, c, text_beq_iff v w)

owners-named :
    (w : Text) (owners : List Text) (owning : List (Text × Text)) (o : Text)
    → In o owners ⊎ (lookup o owning ≡ some w)
    → lookup o (assign_owners w owners owning) ≡ some w
unfolding assign_owners
owners-named w [] owning o (inl m) = absurd m
owners-named w [] owning o (inr e) = e
owners-named w (j ∷ owners) owning o h =
    owners-named w owners (insert j w owning) o
      (ground (arith, h, lookup-insert j o w owning, text_beq_iff j o))

shard-IsClean :
    (shard : ShardSpec) (shards : List ShardSpec) (seen : List Text) (owning : List (Text × Text))
    → IsClean (check_shards (shard ∷ shards) seen owning)
    → IsClean (check_owners shard.worker_id shard.owners owning)
      × IsClean (
          check_shards shards
            (shard.worker_id ∷ seen)
            (assign_owners shard.worker_id shard.owners owning))
unfolding check_shards
shard-IsClean shard shards seen owning clean =
    let w = shard.worker_id in
    let (_, c₁) = IsClean-append (problem_if (length w == 0) _) _ clean in
    let (_, c₂) = IsClean-append (problem_if (any (text_beq w) seen) _) _ c₁ in
    let (here, c₃) = IsClean-append (check_owners w shard.owners owning) _ c₂ in
    let (_, later) =
      IsClean-append (problem_if (length shard.owners == 0 && not (default_set shard)) _) _ c₃ in
    (here, later)

-- Over the shards: an owner keeps its worker, and the maps stay in agreement.
shards-stay :
    (shards : List ShardSpec) (seen : List Text) (owning : List (Text × Text))
    (by_owner : List (Text × ShardSpec)) (o v : Text)
    → IsClean (check_shards shards seen owning)
    → Agrees owning by_owner
    → lookup o owning ≡ some v
    → id_of (lookup o (register shards by_owner)) ≡ some v
unfolding check_shards register
shards-stay [] seen owning by_owner o v clean agree h = agree o ∙ h
shards-stay (shard ∷ shards) seen owning by_owner o v clean agree h =
    let w = shard.worker_id in
    let (here, later) = shard-IsClean shard shards seen owning clean in
    shards-stay shards (w ∷ seen) (assign_owners w shard.owners owning)
      (register_owners shard shard.owners by_owner) o v later
      (owners-Agrees shard shard.owners owning by_owner agree)
      (owners-stay w shard.owners owning o v here h)

shards-named :
    (shards : List ShardSpec) (seen : List Text) (owning : List (Text × Text))
    (by_owner : List (Text × ShardSpec)) (shard : ShardSpec) (o : Text)
    → IsClean (check_shards shards seen owning)
    → Agrees owning by_owner
    → In shard shards
    → In o shard.owners
    → id_of (lookup o (register shards by_owner)) ≡ some shard.worker_id
unfolding check_shards register
shards-named [] seen owning by_owner shard o clean agree m n = absurd m
shards-named (s ∷ shards) seen owning by_owner shard o clean agree m n =
    let w = s.worker_id in
    let (_, later) = shard-IsClean s shards seen owning clean in
    let agree' = owners-Agrees s s.owners owning by_owner agree in
    elim m [
      | inl same ↦ rw same (
          shards-stay shards (w ∷ seen) (assign_owners w s.owners owning)
            (register_owners s s.owners by_owner) o w later agree'
            (owners-named w s.owners owning o (inl (subst (λ x. In o x.owners) same n))))
      | inr m' ↦
          shards-named shards (w ∷ seen) (assign_owners w s.owners owning)
            (register_owners s s.owners by_owner) shard o later agree' m' n
    ]

pub create-IsClean :
    (shards : List ShardSpec) (t : ShardTopology)
    → create shards ≡ ok t
    → IsClean (check_shards shards [] [])
      × (t ≡ record {
        by_owner = register shards [];
        default = find default_set shards;
        shards = shards;
      })
unfolding create created validate_topology
create-IsClean shards t e = split (filter is_error (validate_topology shards)) refl
  where
    split :
        (ps : List TopologyProblem)
        → filter is_error (validate_topology shards) ≡ ps
        → IsClean (check_shards shards [] [])
          × (t ≡ record {
            by_owner = register shards [];
            default = find default_set shards;
            shards = shards;
          })
    split [] q = ((IsClean-append (check_shards shards [] []) _ q).0, ground (arith, q, e))
    split (p ∷ ps) q = absurd (ground (arith, q, e))

found-id :
    (o : Text) (by_owner : List (Text × ShardSpec)) (default : Option ShardSpec) (id w : Text)
    (shards : List ShardSpec)
    → id_of (lookup o by_owner) ≡ some id
    → belongs_to o w (record { by_owner = by_owner; default = default; shards = shards })
      ≡ text_beq id w
unfolding belongs_to worker_for
found-id o by_owner default id w shards e = elim (Option-cases (lookup o by_owner)) [
  | inl z ↦ absurd (ground (arith, z, e))
  | inr (shard, z) ↦ ground (arith, z, e)
]

-- A topology without errors gives each owner that a shard names to that shard's worker, and to no
-- other.
pub create-belongs_to :
    (shards : List ShardSpec) (t : ShardTopology) (shard : ShardSpec) (owner worker : Text)
    → create shards ≡ ok t
    → In shard shards
    → In owner shard.owners
    → belongs_to owner worker t ≡ text_beq shard.worker_id worker
unfolding lookup
create-belongs_to shards t shard owner worker e m n =
    let (clean, shape) = create-IsClean shards t e in
    rw shape (
      found-id owner (register shards []) (find default_set shards) shard.worker_id worker shards
        (shards-named shards [] [] [] shard owner clean (λ o. refl) m n))
