-- ===== src/Groups/Participating.antt =====
-- `groupFetchAllParticipating` of src/groups/index.ts, and what it gives for an id.
use nexawhats.Common.{
  ◌≡◌, refl, All, ◌∙◌, arith, if◌then◌else◌, Bool, true, false, Option, none, some, List, [], ◌∷◌,
}
use nexawhats.Common.Text.{Str, codes, str_eq}
use nexawhats.Common.Dict.{Dict, lookup, put, lookup-put}
use nexawhats.Binary.{Node, Content, tag_of, node, absent, children, nil, cons}
use nexawhats.Binary.Helpers.{list_of, find_child_node, find_child_nodes, find_tag, filter_tag}
use nexawhats.Groups.Metadata.{GroupMetadataFull, metadata_of, extract_group_metadata}
use nexawhats.Groups.Operations.{Result, ok, rejected, no_group, attribute, one, everyone}

abbrev pub participating_query : Node
participating_query =
    node (codes "iq")
      (attribute (codes "to") everyone
        ∷ attribute (codes "xmlns") (codes "w:g2")
        ∷ attribute (codes "type") (codes "get")
        ∷ [])
      (one (
        node (codes "participating") [] (
          children (
            cons (node (codes "participants") [] absent)
              (cons (node (codes "description") [] absent) nil)))))

-- The loop over the groups; `none` when one throws.
unfoldable pub collect_groups : List Node → Dict GroupMetadataFull → Option (Dict GroupMetadataFull)
collect_groups [] data' = some data'
collect_groups (group_node ∷ ns) data' =
    elim (extract_group_metadata (node (codes "result") [] (one group_node))) [
      | none ↦ none
      | some meta ↦ collect_groups ns (put meta.id meta data')
    ]

abbrev groups_of : Option Node → List Node
groups_of none = []
groups_of (some groups_child) = find_child_nodes groups_child (codes "group")

unfoldable pub groups_in : Node → List Node
groups_in result = groups_of (find_child_node result (codes "groups"))

unfoldable pub group_fetch_all_participating :
    (Node → Option Node) → Result (Dict GroupMetadataFull)
group_fetch_all_participating query = elim (query participating_query) [
  | none ↦ rejected
  | some result ↦ elim (collect_groups (groups_in result) []) [
    | none ↦ no_group
    | some data' ↦ ok data'
  ]
]

-- The last of the nodes whose group has an id.
unfoldable pub last_with : Str → List Node → Option GroupMetadataFull
last_with id [] = none
last_with id (n ∷ ns) = elim (last_with id ns) [
  | some meta ↦ some meta
  | none ↦ if str_eq (metadata_of n).id id then some (metadata_of n) else none
]

abbrev or_before : Option GroupMetadataFull → Option GroupMetadataFull → Option GroupMetadataFull
or_before none before = before
or_before (some meta) before = some meta

abbrev IsGroup : Node → Type 0
IsGroup n = str_eq (tag_of n) (codes "group") ≡ true

filter_tag-IsGroup : (ns : List Node) → All IsGroup (filter_tag (codes "group") ns)
unfolding filter_tag
filter_tag-IsGroup [] = tt
filter_tag-IsGroup (n ∷ ns) = go (str_eq (tag_of n) (codes "group")) refl (filter_tag-IsGroup ns)
  where
    go :
        (b : Bool)
        → str_eq (tag_of n) (codes "group") ≡ b
        → All IsGroup (filter_tag (codes "group") ns)
        → All IsGroup
            (if b then n ∷ filter_tag (codes "group") ns else filter_tag (codes "group") ns)
    go true e rest = (e, rest)
    go false e rest = rest

groups_in-IsGroup : (result : Node) → All IsGroup (groups_in result)
unfolding groups_in
groups_in-IsGroup result = go (find_child_node result (codes "groups"))
  where
    go : (o : Option Node) → All IsGroup (groups_of o)
    go none = tt
    go (some (node tag attrs absent)) = unfold find_child_nodes in tt
    go (some (node tag attrs (Content.text t))) = unfold find_child_nodes in tt
    go (some (node tag attrs (Content.bytes bs))) = unfold find_child_nodes in tt
    go (some (node tag attrs (children ns))) =
        unfold find_child_nodes in filter_tag-IsGroup (list_of ns)
    go (some (node tag attrs Content.invalid)) = unfold find_child_nodes in tt

extract-result :
    (n : Node)
    → IsGroup n
    → extract_group_metadata (node (codes "result") [] (one n)) ≡ some (metadata_of n)
unfolding extract_group_metadata find_child_node find_tag
extract-result n h = ground (arith, h)

collect_groups-last :
    (ns : List Node) (d : Dict GroupMetadataFull)
    → All IsGroup ns
    → (data' : Dict GroupMetadataFull) × (collect_groups ns d ≡ some data')
      × ((id : Str) → lookup id data' ≡ or_before (last_with id ns) (lookup id d))
unfolding collect_groups last_with
collect_groups-last [] d h = (d, refl, λ id. refl)
collect_groups-last (n ∷ ns) d (h, rest) =
    let meta = metadata_of n in
    let (data', run, found) = collect_groups-last ns (put meta.id meta d) rest in
    (
      data',
      rw (extract-result n h, collect_groups) run,
      λ id. found id ∙ ground (arith, lookup-put meta.id id meta d),
    )

-- Where the server answers, the operation throws nothing, and gives for an id the metadata of the last
-- group of the answer that has that id, and nothing for an id that no group has.
pub group_fetch_all_participating-last :
    (query : Node → Option Node) (result : Node)
    → query participating_query ≡ some result
    → (data' : Dict GroupMetadataFull) × (group_fetch_all_participating query ≡ ok data')
      × ((id : Str) → lookup id data' ≡ last_with id (groups_in result))
unfolding group_fetch_all_participating lookup
group_fetch_all_participating-last query result answers =
    let (data', run, found) =
      collect_groups-last (groups_in result) [] (groups_in-IsGroup result) in
    (
      data',
      rw (answers, run, group_fetch_all_participating) refl,
      λ id. found id ∙ unchanged (last_with id (groups_in result)),
    )
  where
    unchanged : (o : Option GroupMetadataFull) → or_before o none ≡ o
    unchanged none = refl
    unchanged (some meta) = refl
