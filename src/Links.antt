-- ===== src/Links.antt =====
-- The direct leaves that the topology agent makes of LLDP neighbours: buildLeafLinks and
-- shouldBindSingleExplicitInterface of topology_agent/agent.go, and what topology_agent/lldp.go says
-- of a chassis, of a host name and of the order of neighbours.
-- strings.ToLower and strings.EqualFold stand on the Unicode tables: they are parameters.
pub mod Chassis
use ngd_ngg_scheduling.Base.{
  ℕ, zero, suc, ◌≡◌, Bool, true, false, not, ◌&&◌, ◌||◌, List, [], ◌∷◌, ◌++◌, Option, none, some,
  nat_eq, if◌then◌else◌, length, ◌==◌, lookup, insert, Result, ok, err, ◌>>=◌, ◌>>◌, reject_if,
  is_some,
}
use ngd_ngg_scheduling.Text.{Text, Folding, text_Eq, text_lt, lit, is_empty, trim_space}
use ngd_ngg_scheduling.Facts.{Link}
use ngd_ngg_scheduling.Bond.{Selections}
use ngd_ngg_scheduling.Lldp.{LldpNeighbor}

-- strings.NewReplacer(":", "", "-", "", ".", "").Replace
unfoldable pub drop_separators : Text → Text
drop_separators [] = []
drop_separators (b ∷ s) =
    let rest = drop_separators s in
    if nat_eq b b':' || (nat_eq b b'-' || nat_eq b b'.') then rest else b ∷ rest

-- value[:strings.IndexByte(value, '.')], or the value
unfoldable pub before_dot : Text → Text
before_dot [] = []
before_dot (b ∷ s) = let rest = before_dot s in if nat_eq b b'.' then [] else b ∷ rest

-- neighborIdentity
unfoldable pub neighbor_identity : LldpNeighbor → Text
neighbor_identity n =
    n.local_interface
    ++ (0
        ∷ (n.chassis_id_subtype
            ++ (0 ∷ (n.chassis_id ++ (0 ∷ (n.port_id_subtype ++ (0 ∷ n.port_id)))))))

unfoldable pub place_neighbor : LldpNeighbor → List LldpNeighbor → List LldpNeighbor
unfolding neighbor_identity text_lt
place_neighbor n [] = n ∷ []
place_neighbor n (m ∷ ms) =
    let rest = place_neighbor n ms in
    if text_lt (neighbor_identity m) (neighbor_identity n) then m ∷ rest else n ∷ m ∷ ms

-- sortNeighbors
unfoldable pub sort_neighbors : List LldpNeighbor → List LldpNeighbor
unfolding place_neighbor
sort_neighbors [] = []
sort_neighbors (n ∷ ns) = place_neighbor n (sort_neighbors ns)

-- What buildLeafLinks knows of a chassis: resolvedLeaf.
pub record ResolvedLeaf : Type 0 where
  pub id : Text
  pub from_system_name : Bool

pub data LinkError : Type 0 where
  unselected_interface : Text → LinkError
  no_chassis_identity : Text → LinkError
  conflicting_names : Text → Text → Text → LinkError
  no_leaf_id : Text → LinkError
  no_neighbor_found : LinkError
  ambiguous_leaf : Text → LinkError

-- `leafByChassis[chassisIdentity]`, the zero value where there is none.
unfoldable pub leaf_at : Text → List (Text × ResolvedLeaf) → ResolvedLeaf
unfolding lookup
leaf_at chassis leaves = elim (lookup chassis leaves) [
  | none ↦ record { id = []; from_system_name = false }
  | some leaf ↦ leaf
]

-- BondName, BondMode or "direct", and Active of `selections[name]`, zero where there is none.
unfoldable pub bond_of : Text → Selections → Text × Text × Bool
unfolding lookup
bond_of name selections = elim (lookup name selections) [
  | none ↦ ([], lit "direct", false)
  | some s ↦ (s.bond_name, if is_empty s.bond_mode then lit "direct" else s.bond_mode, s.active)
]

module _ (fold : Folding) where
  -- leafChassisIdentity, from the subtype and the identifier of the chassis.
  unfoldable pub chassis_key : Text → Text → Text
  unfolding trim_space drop_separators
  chassis_key subtype_text id_text =
      let subtype = fold.to_lower (trim_space subtype_text) in
      let lower = fold.to_lower (trim_space id_text) in
      let identifier = if subtype == lit "mac-address" then drop_separators lower else lower in
      if is_empty identifier then [] else subtype ++ (0 ∷ identifier)

  unfoldable pub leaf_chassis_identity : LldpNeighbor → Text
  unfolding chassis_key
  leaf_chassis_identity n = chassis_key n.chassis_id_subtype n.chassis_id

  -- The keys of the map that distinctLeafCount fills.
  unfoldable pub leaf_identities :
      List LldpNeighbor → List (Text × Unit {0}) → List (Text × Unit {0})
  unfolding leaf_chassis_identity insert
  leaf_identities [] identities = identities
  leaf_identities (n ∷ ns) identities =
      if n.looks_like_local_host || is_empty (leaf_chassis_identity n)
      then leaf_identities ns identities
      else leaf_identities ns (insert (leaf_chassis_identity n) tt identities)

  -- distinctLeafCount
  unfoldable pub distinct_leaf_count : List LldpNeighbor → ℕ
  unfolding leaf_identities
  distinct_leaf_count ns = length (leaf_identities ns [])

  -- `normalize` of sameHostName
  unfoldable pub host_name : Text → Text
  unfolding trim_space before_dot
  host_name value = before_dot (fold.to_lower (trim_space value))

  -- sameHostName
  unfoldable pub same_host_name : Text → Text → Bool
  unfolding host_name
  same_host_name left right = not (is_empty (host_name left)) && (host_name left == host_name right)

  -- One neighbour of the first loop: what it makes of the leaf that is known of its chassis.
  unfoldable pub name_leaf : LldpNeighbor → ResolvedLeaf → Result LinkError ResolvedLeaf
  unfolding trim_space
  name_leaf n resolved =
      let system_name = trim_space n.system_name in
      let id = if is_empty resolved.id then trim_space n.chassis_id else resolved.id in
      if not (is_empty system_name)
      then (if resolved.from_system_name && not (fold.equal_fold resolved.id system_name)
          then err (conflicting_names n.chassis_id resolved.id system_name)
          else ok (record { id = system_name; from_system_name = true }))
      else (if is_empty id
          then err (no_leaf_id n.local_interface)
          else ok (record resolved { id = id }))

  unfoldable pub check_neighbor : Selections → LldpNeighbor → Result LinkError (Unit {0})
  unfolding lookup leaf_chassis_identity
  check_neighbor selections n =
      reject_if (not (is_some (lookup n.local_interface selections)))
        (unselected_interface n.local_interface)
      >> reject_if (is_empty (leaf_chassis_identity n)) (no_chassis_identity n.local_interface)

  -- The first loop: leafByChassis.
  unfoldable pub leaf_by_chassis :
      Selections
      → List LldpNeighbor
      → List (Text × ResolvedLeaf)
      → Result LinkError (List (Text × ResolvedLeaf))
  unfolding check_neighbor name_leaf leaf_chassis_identity leaf_at insert
  leaf_by_chassis selections [] leaves = ok leaves
  leaf_by_chassis selections (n ∷ ns) leaves =
      if n.looks_like_local_host
      then leaf_by_chassis selections ns leaves
      else (check_neighbor selections n
          >> name_leaf n (leaf_at (leaf_chassis_identity n) leaves)
          >>= λ leaf. leaf_by_chassis selections ns (insert (leaf_chassis_identity n) leaf leaves))

  -- The second loop: chassisByLeafName.
  unfoldable pub chassis_by_leaf_name :
      List (Text × ResolvedLeaf) → List (Text × Text) → Result LinkError (List (Text × Text))
  unfolding lookup insert
  chassis_by_leaf_name [] names = ok names
  chassis_by_leaf_name ((chassis, leaf) ∷ rest) names =
      let key = fold.to_lower leaf.id in
      let later = chassis_by_leaf_name rest (insert key chassis names) in
      elim (lookup key names) [
        | none ↦ later
        | some previous ↦ if previous == chassis then later else err (ambiguous_leaf leaf.id)
      ]

  -- The third loop.
  unfoldable pub links_of : Selections → List (Text × ResolvedLeaf) → List LldpNeighbor → List Link
  unfolding bond_of leaf_at leaf_chassis_identity
  links_of selections leaves [] = []
  links_of selections leaves (n ∷ ns) =
      let rest = links_of selections leaves ns in
      if n.looks_like_local_host
      then rest
      else record {
        bond_name = (bond_of n.local_interface selections).0;
        bond_mode = (bond_of n.local_interface selections).1;
        interface = n.local_interface;
        leaf_switch_id = (leaf_at (leaf_chassis_identity n) leaves).id;
        chassis_id = n.chassis_id;
        chassis_subtype = n.chassis_id_subtype;
        remote_port_id = n.port_id;
        active = (bond_of n.local_interface selections).2;
      }
        ∷ rest

  -- buildLeafLinks
  unfoldable pub build_leaf_links : List LldpNeighbor → Selections → Result LinkError (List Link)
  unfolding leaf_by_chassis chassis_by_leaf_name links_of
  build_leaf_links neighbors selections = leaf_by_chassis selections neighbors [] >>= λ leaves.
      reject_if (nat_eq (length leaves) 0) no_neighbor_found
      >> chassis_by_leaf_name leaves []
      >>= λ names. ok (links_of selections leaves neighbors)

-- shouldBindSingleExplicitInterface
unfoldable pub should_bind_single_explicit_interface : List Text → Selections → Bool
unfolding lookup
should_bind_single_explicit_interface (name ∷ []) (selection ∷ []) =
    is_some (lookup name (selection ∷ []))
should_bind_single_explicit_interface configured selections = false
