-- ===== src/Groups/Tests.antt =====
-- A run with a server that has one group.
use nexawhats.Common.{◌≡◌, refl, Option, some, [], ◌∷◌}
use nexawhats.Common.Text.{Str, codes}
use nexawhats.Common.Dict.{Dict, lookup}
use nexawhats.Binary.{Node, node, absent}
use nexawhats.Groups.Metadata.{GroupMetadataFull}
use nexawhats.Groups.Operations.{ok, attribute, one}
use nexawhats.Groups.Participating.{
  groups_in, last_with, group_fetch_all_participating, group_fetch_all_participating-last,
}

abbrev one_group : Node
one_group = node (codes "iq") [] (
    one (
      node (codes "groups") []
        (one (node (codes "group") (attribute (codes "id") (codes "12-3") ∷ []) absent))))

abbrev server : Node → Option Node
server n = some one_group

group_fetch_all_participating-last_example :
    (data' : Dict GroupMetadataFull) × (group_fetch_all_participating server ≡ ok data')
    × ((id : Str) → lookup id data' ≡ last_with id (groups_in one_group))
group_fetch_all_participating-last_example =
    group_fetch_all_participating-last server one_group refl
