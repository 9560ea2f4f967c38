-- ===== src/Topology/Unnamed.antt =====
-- topology.ts: the catch-all shard.
use line_deno_bot.Prelude.{◌≡◌, refl, ◌∙◌, inl, inr, List, [], ◌∷◌, find, arith, In, All}
use line_deno_bot.Prelude.Text.{Text, text_eq, text_beq_iff}
use line_deno_bot.Prelude.Dict.{lookup, insert, lookup-insert}
use line_deno_bot.Topology.{
  ShardSpec, default_set, ShardTopology, register_owners, register, ok, create, worker_for,
}
use line_deno_bot.Topology.Owners.{create-IsClean}

register_owners-unnamed :
    (shard : ShardSpec) (owners : List Text) (by_owner : List (Text × ShardSpec)) (o : Text)
    → ¬ In o owners
    → lookup o (register_owners shard owners by_owner) ≡ lookup o by_owner
unfolding register_owners
register_owners-unnamed shard [] by_owner o out = refl
register_owners-unnamed shard (j ∷ owners) by_owner o out =
    let rest =
      register_owners-unnamed shard owners (insert j shard by_owner) o (λ m. out (inr m)) in
    let other : ¬ (o ≡ j) = λ e. out (inl e) in
    ground (arith, rest, other, lookup-insert j o shard by_owner, text_beq_iff j o)

register-unnamed :
    (shards : List ShardSpec) (by_owner : List (Text × ShardSpec)) (o : Text)
    → All (λ (shard : ShardSpec). ¬ In o shard.owners) shards
    → lookup o (register shards by_owner) ≡ lookup o by_owner
unfolding register
register-unnamed [] by_owner o out = refl
register-unnamed (shard ∷ shards) by_owner o out =
    register-unnamed shards (register_owners shard shard.owners by_owner) o out.1
    ∙ register_owners-unnamed shard shard.owners by_owner o out.0

-- An owner that no shard names goes to the first shard that is set as the default, if there is one.
pub create-worker_for_unnamed :
    (shards : List ShardSpec) (t : ShardTopology) (owner : Text)
    → create shards ≡ ok t
    → All (λ (shard : ShardSpec). ¬ In owner shard.owners) shards
    → worker_for owner t ≡ find default_set shards
unfolding worker_for lookup
create-worker_for_unnamed shards t owner e out =
    let (_, shape) = create-IsClean shards t e in
    rw (shape, register-unnamed shards [] owner out) refl
