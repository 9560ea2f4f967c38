-- ===== src/Topology/Tests.antt =====
-- A small topology.
use line_deno_bot.Prelude.{◌≡◌, inl, refl, true, none, some, List, [], ◌∷◌}
use line_deno_bot.Prelude.Text.{text, text_eq, text_beq}
use line_deno_bot.Prelude.Dict.{lookup, insert}
use line_deno_bot.Topology.{ShardSpec, ShardTopology, ok, create, belongs_to}
use line_deno_bot.Topology.Owners.{create-belongs_to}

abbrev named : ShardSpec
named = record { worker_id = text "w"; owners = text "o" ∷ []; is_default = none; url = none }

abbrev catch_all : ShardSpec
catch_all = record { worker_id = text "d"; owners = []; is_default = some true; url = none }

abbrev two : List ShardSpec
two = named ∷ catch_all ∷ []

abbrev topology : ShardTopology
topology = record { by_owner = (text "o", named) ∷ []; default = some catch_all; shards = two }

two-create : create two ≡ ok topology
unfolding create lookup insert
two-create = refl

create-belongs_to_example :
    belongs_to (text "o") (text "w") topology ≡ text_beq (text "w") (text "w")
create-belongs_to_example =
    create-belongs_to two topology named (text "o") (text "w") two-create (inl refl) (inl refl)
