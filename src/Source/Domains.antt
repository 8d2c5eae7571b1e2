-- ===== src/Source/Domains.antt =====
-- The domains of algorithm_server/go/topology/source.go: those of the uplinks of a leaf in
-- buildCache, configuredBorderDomain, and the leaf domains that assignLeafDomains makes of peers.
use ngd_ngg_scheduling.Base.{
  Bool, not, ◌&&◌, ◌||◌, List, [], ◌∷◌, ◌++◌, Option, none, some, ltb, if◌then◌else◌, length, ◌==◌,
  lookup, insert, Result, ok, err, ◌>>=◌, ◌>>◌, reject_if, contains, remove_all,
}
use ngd_ngg_scheduling.Text.{Text, text_Eq, lit, is_empty}
use ngd_ngg_scheduling.Sets.{unique_sorted, equal_set}
use ngd_ngg_scheduling.Topology.{ResolvedLeaf, mode_layered, mode_uplink_compatible}
use ngd_ngg_scheduling.Source.{
  BorderDomainConfig, Hashing, SourceError, unknown_peer, large_domain, asymmetric_peers,
  different_rooms, different_uplinks, sorted_keys,
}

abbrev pub Leaves : Type 0
Leaves = List (Text × ResolvedLeaf)

-- The identifiers of the configured domains with the members.
unfoldable pub matching_domains : List (Text × BorderDomainConfig) → Text → List Text → List Text
matching_domains [] room_id members = []
matching_domains ((id, d) ∷ rest) room_id members =
    let more = matching_domains rest room_id members in
    if (d.room_id == room_id) && equal_set d.members members then id ∷ more else more

abbrev only : List Text → Text
only (id ∷ []) = id
only _ = []

-- configuredBorderDomain; the sort of at most one identifier is left out.
unfoldable pub configured_border_domain : List (Text × BorderDomainConfig) → Text → List Text → Text
configured_border_domain domains room_id members = only (matching_domains domains room_id members)

-- The tests of assignLeafDomains on the uplinks of two leaves.
unfoldable pub same_uplinks : Text → ResolvedLeaf → ResolvedLeaf → Bool
same_uplinks mode member leaf =
    not (
      (mode == mode_uplink_compatible)
      && (not (member.uplink_domain_id == leaf.uplink_domain_id)
          || not (member.uplink_kind == leaf.uplink_kind)))
    && not (
        (mode == mode_layered)
        && (not (member.spine_domain_id == leaf.spine_domain_id)
            || not (member.border_domain_id == leaf.border_domain_id)))

-- What assignLeafDomains asks of one member of the domain of a leaf.
unfoldable pub check_member :
    Text → Leaves → Text → ResolvedLeaf → List Text → Text → Result SourceError (Unit {0})
check_member mode by_leaf leaf_id leaf members member_id = elim (lookup member_id by_leaf) [
  | none ↦ err (unknown_peer member_id)
  | some member ↦ do
    reject_if (not (equal_set member.peer_leaf_ids (remove_all member_id members)))
        (asymmetric_peers member_id)
    reject_if (not (member.room_id == leaf.room_id)) (different_rooms member_id)
    reject_if (not (same_uplinks mode member leaf)) (different_uplinks member_id)
]

unfoldable pub check_members :
    Text → Leaves → Text → ResolvedLeaf → List Text → List Text → Result SourceError (Unit {0})
check_members mode by_leaf leaf_id leaf members [] = ok tt
check_members mode by_leaf leaf_id leaf members (id ∷ rest) =
    check_member mode by_leaf leaf_id leaf members id
    >> check_members mode by_leaf leaf_id leaf members rest

-- `member := byLeaf[id]` with a new domain, put back; a member that is there, as the tests say.
unfoldable pub set_member : Text → List Text → Text → Option ResolvedLeaf → Leaves → Leaves
set_member domain_id members id none by_leaf = by_leaf
set_member domain_id members id (some member) by_leaf =
    insert id (record member { leaf_domain_id = domain_id; leaf_domain_leaves = members }) by_leaf

-- The loop that sets the domain of each member.
unfoldable pub set_domain : Text → List Text → List Text → Leaves → Leaves
set_domain domain_id members [] by_leaf = by_leaf
set_domain domain_id members (id ∷ rest) by_leaf =
    set_domain domain_id members rest (set_member domain_id members id (lookup id by_leaf) by_leaf)

module _ (H : Hashing) where
  -- The domain of the members.
  unfoldable pub pair_domain : Text → List Text → Text
  pair_domain leaf_id members =
      if ltb 1 (length members) then lit "pair-" ++ H.short_hash members else leaf_id

  -- The members of the domain of a leaf.
  abbrev pub members_of : Text → ResolvedLeaf → List Text
  members_of leaf_id leaf = unique_sorted (leaf_id ∷ leaf.peer_leaf_ids)

  -- One turn of the loop of assignLeafDomains for a leaf that no turn has processed.
  unfoldable pub assign_domain : Text → Text → ResolvedLeaf → Leaves → Result SourceError Leaves
  assign_domain mode leaf_id leaf by_leaf = do
    reject_if (ltb 2 (length (members_of leaf_id leaf))) (large_domain leaf_id)
    check_members mode by_leaf leaf_id leaf (members_of leaf_id leaf) (members_of leaf_id leaf)
    ok (
        set_domain (pair_domain leaf_id (members_of leaf_id leaf)) (members_of leaf_id leaf)
          (members_of leaf_id leaf) by_leaf)

  -- The loop of assignLeafDomains over the leaves, with those that are processed.
  unfoldable pub assign_from : Text → List Text → List Text → Leaves → Result SourceError Leaves
  assign_from mode [] processed by_leaf = ok by_leaf
  assign_from mode (leaf_id ∷ rest) processed by_leaf =
      if contains leaf_id processed
      then assign_from mode rest processed by_leaf
      else elim (lookup leaf_id by_leaf) [
        | none ↦ assign_from mode rest processed by_leaf
        | some leaf ↦ assign_domain mode leaf_id leaf by_leaf >>= λ more.
            assign_from mode rest (members_of leaf_id leaf ++ processed) more
      ]

  -- assignLeafDomains
  unfoldable pub assign_leaf_domains : Text → Leaves → Result SourceError Leaves
  assign_leaf_domains mode by_leaf = assign_from mode (sorted_keys by_leaf) [] by_leaf

  unfoldable pub spine_domain_of : ResolvedLeaf → Text
  spine_domain_of leaf = elim leaf.spine_switch_ids [
    | [] ↦ []
    | id ∷ ids ↦ lit "spine-domain:" ++ H.short_hash leaf.spine_switch_ids
  ]

  unfoldable pub border_domain_of : List (Text × BorderDomainConfig) → ResolvedLeaf → Text
  border_domain_of domains leaf =
      let configured = configured_border_domain domains leaf.room_id leaf.border_switch_ids in
      elim leaf.border_switch_ids [
        | [] ↦ []
        | id ∷ ids ↦
            if is_empty configured
            then lit "border-domain:" ++ H.short_hash leaf.border_switch_ids
            else configured
      ]

  -- The uplink of a leaf whose other domains are set, in the mode uplink-compatible.
  unfoldable pub with_uplink : ResolvedLeaf → ResolvedLeaf
  with_uplink leaf =
      if not (is_empty leaf.spine_domain_id) && not (is_empty leaf.border_domain_id)
      then record leaf {
        uplink_kind = lit "layered";
        uplink_domain_id =
            lit "layered:" ++ H.short_hash (leaf.spine_domain_id ∷ leaf.border_domain_id ∷ []);
      }
      else if not (is_empty leaf.spine_domain_id)
      then record leaf {
        uplink_kind = lit "spine";
        uplink_domain_id = lit "spine:" ++ leaf.spine_domain_id;
      }
      else record leaf {
        uplink_kind = lit "border";
        uplink_domain_id = lit "border:" ++ leaf.border_domain_id;
      }

  -- One turn of the loop of buildCache that gives a leaf its domains.
  unfoldable pub with_domains :
      Text → List (Text × BorderDomainConfig) → ResolvedLeaf → ResolvedLeaf
  with_domains mode domains leaf =
      let placed = record leaf {
        spine_domain_id = spine_domain_of leaf;
        border_domain_id = border_domain_of domains leaf;
      } in
      if mode == mode_uplink_compatible then with_uplink placed else placed

  -- That loop: each turn reads and writes its own leaf alone.
  unfoldable pub place_leaves : Text → List (Text × BorderDomainConfig) → Leaves → Leaves
  place_leaves mode domains [] = []
  place_leaves mode domains ((id, leaf) ∷ rest) =
      (id, with_domains mode domains leaf) ∷ place_leaves mode domains rest
