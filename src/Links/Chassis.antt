-- ===== src/Links/Chassis.antt =====
-- The names that buildLeafLinks gives to leaves: one for each chassis, and one chassis for each.
use ngd_ngg_scheduling.Base.{
  ◌≡◌, refl, ◌↔◌, ◌⊎◌, inl, inr, true, List, [], ◌∷◌, some, lookup, insert, lookup-insert, ok,
  is_some, Elem, All, All-Elem, arith, Option-cases, Result-cases, Bool-cases,
}
use ngd_ngg_scheduling.Bond.{Selections}
use ngd_ngg_scheduling.Text.{Text, Folding, text_Eq}
use ngd_ngg_scheduling.Facts.{Link}
use ngd_ngg_scheduling.Lldp.{LldpNeighbor}
use ngd_ngg_scheduling.Links.{
  ResolvedLeaf, leaf_at, chassis_key, leaf_chassis_identity, name_leaf, check_neighbor,
  leaf_by_chassis, chassis_by_leaf_name, links_of, build_leaf_links,
}

module _ (fold : Folding) where
  -- The leaf of the chassis of a link.
  abbrev pub chassis_of : Link → Text
  chassis_of l = chassis_key fold l.chassis_subtype l.chassis_id

  -- A name that the second loop has recorded stays that of its chassis.
  names_kept :
      (leaves : List (Text × ResolvedLeaf)) (names final : List (Text × Text)) (key chassis : Text)
      → chassis_by_leaf_name fold leaves names ≡ ok final
      → lookup key names ≡ some chassis
      → lookup key final ≡ some chassis
  unfolding chassis_by_leaf_name
  names_kept [] names final key chassis e known = ground arith
  names_kept ((c, leaf) ∷ rest) names final key chassis e known =
      let k = fold.to_lower leaf.id in
      elim (Option-cases (lookup k names)) [
        | inl fresh ↦ ground (
          arith,
          names_kept rest (insert k c names) final key chassis,
          lookup-insert k key c names,
          text_Eq.beq_iff key k,
        )
        | inr (previous, found) ↦ ground (
          arith,
          names_kept rest (insert k c names) final key chassis,
          lookup-insert k key c names,
          text_Eq.beq_iff key k,
          text_Eq.beq_iff previous c,
        )
      ]

  -- After the second loop the name of each leaf leads to its chassis.
  names_lead_back :
      (leaves : List (Text × ResolvedLeaf)) (names final : List (Text × Text)) (chassis : Text)
      (leaf : ResolvedLeaf)
      → chassis_by_leaf_name fold leaves names ≡ ok final
      → lookup chassis leaves ≡ some leaf
      → lookup (fold.to_lower leaf.id) final ≡ some chassis
  unfolding chassis_by_leaf_name lookup
  names_lead_back [] names final chassis leaf e known = cc
  names_lead_back ((c, first) ∷ rest) names final chassis leaf e known =
      let k = fold.to_lower first.id in
      ground (
        arith,
        text_Eq.beq_iff chassis c,
        names_lead_back rest (insert k c names) final chassis leaf,
        names_kept rest (insert k c names) final k c,
        lookup-insert k k c names,
        text_Eq.beq_iff k k,
      )

  -- The first loop forgets no chassis.
  chassis_kept :
      (selections : Selections) (ns : List LldpNeighbor) (leaves final : List (Text × ResolvedLeaf))
      (chassis : Text)
      → leaf_by_chassis fold selections ns leaves ≡ ok final
      → is_some (lookup chassis leaves) ≡ true
      → is_some (lookup chassis final) ≡ true
  unfolding leaf_by_chassis
  chassis_kept selections [] leaves final chassis e known = ground arith
  chassis_kept selections (n ∷ ns) leaves final chassis e known =
      elim (Result-cases (name_leaf fold n (leaf_at (leaf_chassis_identity fold n) leaves))) [
        | inl (leaf, named) ↦ ground (
          arith,
          chassis_kept selections ns leaves final chassis,
          chassis_kept selections ns (insert (leaf_chassis_identity fold n) leaf leaves) final
              chassis,
          lookup-insert (leaf_chassis_identity fold n) chassis leaf leaves,
          Result-cases (check_neighbor fold selections n),
        )
        | inr (why, refused) ↦ ground (
          arith,
          chassis_kept selections ns leaves final chassis,
          Result-cases (check_neighbor fold selections n),
        )
      ]

  -- The neighbour is the host itself, or its chassis has a leaf.
  abbrev IsKnown : List (Text × ResolvedLeaf) → LldpNeighbor → Type 0
  IsKnown leaves n =
      (n.looks_like_local_host ≡ true)
      ⊎ (is_some (lookup (leaf_chassis_identity fold n) leaves) ≡ true)

  leaf_by_chassis-IsKnown :
      (selections : Selections) (ns : List LldpNeighbor) (leaves final : List (Text × ResolvedLeaf))
      → leaf_by_chassis fold selections ns leaves ≡ ok final
      → All (IsKnown final) ns
  unfolding leaf_by_chassis
  leaf_by_chassis-IsKnown selections [] leaves final e = tt
  leaf_by_chassis-IsKnown selections (n ∷ ns) leaves final e =
      elim (Result-cases (name_leaf fold n (leaf_at (leaf_chassis_identity fold n) leaves))) [
        | inl (leaf, named) ↦ ground (
          arith,
          leaf_by_chassis-IsKnown selections ns leaves final,
          leaf_by_chassis-IsKnown selections ns (insert (leaf_chassis_identity fold n) leaf leaves)
              final,
          chassis_kept selections ns (insert (leaf_chassis_identity fold n) leaf leaves) final
              (leaf_chassis_identity fold n),
          lookup-insert (leaf_chassis_identity fold n) (leaf_chassis_identity fold n) leaf leaves,
          text_Eq.beq_iff (leaf_chassis_identity fold n) (leaf_chassis_identity fold n),
          Result-cases (check_neighbor fold selections n),
        )
        | inr (why, refused) ↦ ground (
          arith,
          leaf_by_chassis-IsKnown selections ns leaves final,
          Result-cases (check_neighbor fold selections n),
        )
      ]

  -- The leaf that a link names is the one of its chassis.
  abbrev IsLinked : List (Text × ResolvedLeaf) → Link → Type 0
  IsLinked leaves l =
      (leaf : ResolvedLeaf) × ((lookup (chassis_of l) leaves ≡ some leaf)
        × (l.leaf_switch_id ≡ leaf.id))

  links_of-IsLinked :
      (selections : Selections) (leaves : List (Text × ResolvedLeaf)) (ns : List LldpNeighbor)
      → All (IsKnown leaves) ns
      → All (IsLinked leaves) (links_of fold selections leaves ns)
  unfolding links_of leaf_at leaf_chassis_identity
  links_of-IsLinked selections leaves [] known = tt
  links_of-IsLinked selections leaves (n ∷ ns) known = elim (Bool-cases n.looks_like_local_host) [
    | inl own ↦ rw own (links_of-IsLinked selections leaves ns known.1)
    | inr other ↦ elim (Option-cases (lookup (leaf_chassis_identity fold n) leaves)) [
      | inl e ↦ absurd (ground arith)
      | inr (leaf, e) ↦
          rw other
            ((leaf, (e, rw (e, leaf_at) refl)), links_of-IsLinked selections leaves ns known.1)
    ]
  ]

  -- What stands behind links that are returned.
  build_leaf_links_parts :
      (selections : Selections) (ns : List LldpNeighbor) (links : List Link)
      → build_leaf_links fold ns selections ≡ ok links
      → (leaves : List (Text × ResolvedLeaf)) × ((names : List (Text × Text)) × ((leaf_by_chassis
                fold selections ns []
              ≡ ok leaves)
            × ((chassis_by_leaf_name fold leaves [] ≡ ok names)
                × (links_of fold selections leaves ns ≡ links))))
  unfolding build_leaf_links
  build_leaf_links_parts selections ns links e =
      elim (Result-cases (leaf_by_chassis fold selections ns [])) [
        | inl (leaves, first) ↦ elim (Result-cases (chassis_by_leaf_name fold leaves [])) [
          | inl (names, second) ↦ (leaves, (names, (first, (second, ground arith))))
          | inr (why, refused) ↦ absurd (ground arith)
        ]
        | inr (why, refused) ↦ absurd (ground arith)
      ]

-- The links that the agent reports: two of them lie on one chassis exactly if they name one leaf,
-- up to the case of letters. So two ports of a switch are links to one leaf, and no leaf name
-- stands for two switches.
pub build_leaf_links_names :
    (fold : Folding) (selections : Selections) (neighbors : List LldpNeighbor) (links : List Link)
    (l m : Link)
    → build_leaf_links fold neighbors selections ≡ ok links
    → Elem l links
    → Elem m links
    → (chassis_of fold l ≡ chassis_of fold m)
      ↔ (fold.to_lower l.leaf_switch_id ≡ fold.to_lower m.leaf_switch_id)
build_leaf_links_names fold selections neighbors links l m e in_l in_m =
    let (leaves, (names, (first, (second, third)))) =
      build_leaf_links_parts fold selections neighbors links e in
    let linked =
      links_of-IsLinked fold selections leaves neighbors
        (leaf_by_chassis-IsKnown fold selections neighbors [] leaves first) in
    let (x, (at_l, id_l)) = All-Elem (IsLinked fold leaves) l _ linked (rw third in_l) in
    let (y, (at_m, id_m)) = All-Elem (IsLinked fold leaves) m _ linked (rw third in_m) in
    ground (
      arith,
      names_lead_back fold leaves [] names (chassis_of fold l) x second at_l,
      names_lead_back fold leaves [] names (chassis_of fold m) y second at_m,
    )
