-- ===== src/Source/Paired.antt =====
-- What one turn of assignLeafDomains makes of a leaf and its peers.
use ngd_ngg_scheduling.Base.{
  ◌≤◌, ◌≡◌, ◌≢◌, ◌↔◌, Elem, refl, sym, inl, inr, true, false, ◌||◌, List, [], ◌∷◌, Option, none,
  some, if◌then◌else◌, length, ◌==◌, lookup, lookup-insert, contains, remove_all, ok, All, All-map,
  arith, Option-cases, Result-cases,
}
use ngd_ngg_scheduling.Text.{Text, text_Eq}
use ngd_ngg_scheduling.Sets.{equal_set}
use ngd_ngg_scheduling.Sets.Canonical.{SameSet, IsTrimmedOf, equal_set_iff, unique_sorted_lem}
use ngd_ngg_scheduling.Topology.{ResolvedLeaf, mode_uplink_compatible, mode_layered}
use ngd_ngg_scheduling.Source.{Hashing}
use ngd_ngg_scheduling.Source.Domains.{
  Leaves, same_uplinks, check_member, check_members, set_member, set_domain, pair_domain,
  members_of, assign_domain,
}

-- A leaf with its domain, if it is there.
abbrev pub assigned : Text → List Text → Option ResolvedLeaf → Option ResolvedLeaf
assigned domain members none = none
assigned domain members (some leaf) =
    some (record leaf { leaf_domain_id = domain; leaf_domain_leaves = members })

assigned_twice :
    (domain : Text) (members : List Text) (o : Option ResolvedLeaf)
    → assigned domain members (assigned domain members o) ≡ assigned domain members o
assigned_twice domain members none = refl
assigned_twice domain members (some leaf) = refl

lookup-set_member :
    (domain : Text) (members : List Text) (id j : Text) (o : Option ResolvedLeaf) (by_leaf : Leaves)
    → lookup id by_leaf ≡ o
    → lookup j (set_member domain members id o by_leaf)
      ≡ (if j == id then assigned domain members (lookup j by_leaf) else lookup j by_leaf)
unfolding set_member
lookup-set_member domain members id j none by_leaf e = ground (arith, text_Eq.beq_iff j id)
lookup-set_member domain members id j (some leaf) by_leaf e = ground (
  arith,
  text_Eq.beq_iff j id,
  lookup-insert id j (record leaf { leaf_domain_id = domain; leaf_domain_leaves = members })
      by_leaf,
)

lookup-set_domain :
    (domain : Text) (members ids : List Text) (j : Text) (by_leaf : Leaves)
    → lookup j (set_domain domain members ids by_leaf)
      ≡ (if contains j ids then assigned domain members (lookup j by_leaf) else lookup j by_leaf)
unfolding set_domain contains
lookup-set_domain domain members [] j by_leaf = refl
lookup-set_domain domain members (id ∷ rest) j by_leaf =
    let next = set_member domain members id (lookup id by_leaf) by_leaf in
    ground (
      arith,
      lookup-set_domain domain members rest j next,
      lookup-set_member domain members id j (lookup id by_leaf) by_leaf refl,
      assigned_twice domain members (lookup j by_leaf),
    )

module _ (mode : Text) (by_leaf : Leaves) (leaf_id : Text) (leaf : ResolvedLeaf)
    (members : List Text) where
  -- The two leaves have the uplinks in common that the mode asks for.
  abbrev pub SharesUplinks : ResolvedLeaf → Type 0
  SharesUplinks member =
      (mode ≡ mode_uplink_compatible
        → (member.uplink_domain_id ≡ leaf.uplink_domain_id)
          × (member.uplink_kind ≡ leaf.uplink_kind))
      × (mode ≡ mode_layered
          → (member.spine_domain_id ≡ leaf.spine_domain_id)
            × (member.border_domain_id ≡ leaf.border_domain_id))

  same_uplinks-SharesUplinks :
      (member : ResolvedLeaf) → same_uplinks mode member leaf ≡ true → SharesUplinks member
  unfolding same_uplinks
  same_uplinks-SharesUplinks member h = ground (
    arith,
    text_Eq.beq_iff mode mode_uplink_compatible,
    text_Eq.beq_iff mode mode_layered,
    text_Eq.beq_iff member.uplink_domain_id leaf.uplink_domain_id,
    text_Eq.beq_iff member.uplink_kind leaf.uplink_kind,
    text_Eq.beq_iff member.spine_domain_id leaf.spine_domain_id,
    text_Eq.beq_iff member.border_domain_id leaf.border_domain_id,
  )

  -- The member is there, its peers are as a set the other members, and it shares the room of the
  -- leaf, and its uplinks or its Spine and Border domains, by the mode.
  abbrev pub IsPartner : Text → ResolvedLeaf → Type 0
  IsPartner id member =
      (lookup id by_leaf ≡ some member)
      × SameSet member.peer_leaf_ids (remove_all id members)
      × (member.room_id ≡ leaf.room_id)
      × SharesUplinks member

  check_member-IsPartner :
      (id : Text)
      → check_member mode by_leaf leaf_id leaf members id ≡ ok tt
      → (member : ResolvedLeaf) × IsPartner id member
  unfolding check_member
  check_member-IsPartner id e = elim (Option-cases (lookup id by_leaf)) [
    | inl absent ↦ absurd (ground arith)
    | inr (member, there) ↦
        let set : equal_set member.peer_leaf_ids (remove_all id members) ≡ true = ground arith in
        let uplinks : same_uplinks mode member leaf ≡ true = ground arith in
        (
          member,
          (
            there,
            (equal_set_iff member.peer_leaf_ids (remove_all id members)).0 set,
            ground (arith, text_Eq.beq_iff member.room_id leaf.room_id),
            same_uplinks-SharesUplinks member uplinks,
          ),
        )
  ]

  check_members-IsPartner :
      (ids : List Text)
      → check_members mode by_leaf leaf_id leaf members ids ≡ ok tt
      → All (λ id. (member : ResolvedLeaf) × IsPartner id member) ids
  unfolding check_members
  check_members-IsPartner [] e = tt
  check_members-IsPartner (id ∷ rest) e =
      elim (Result-cases (check_member mode by_leaf leaf_id leaf members id)) [
        | inl (done, one) ↦
            (check_member-IsPartner id one, check_members-IsPartner rest (ground arith))
        | inr (why, refused) ↦ absurd (ground arith)
      ]

All-both :
    {A : Type 0} (P Q : A → Type 0) (xs : List A) → All P xs → All Q xs → All (λ a. P a × Q a) xs
All-both P Q [] h k = tt
All-both P Q (x ∷ xs) h k = ((h.0, k.0), All-both P Q xs h.1 k.1)

all_contained : (xs : List Text) → All (λ x. contains x xs ≡ true) xs
unfolding contains
all_contained [] = tt
all_contained (x ∷ xs) = (
  ground (arith, text_Eq.beq_iff x x),
  All-map (λ y. contains y xs ≡ true) (λ y. ((y == x) || contains y xs) ≡ true)
      (λ y h. ground arith) xs (all_contained xs),
)

-- The member is a partner, and it has the domain and its members afterwards.
abbrev pub IsSettled :
    Text → Leaves → Text → ResolvedLeaf → List Text → Text → Leaves → Text → Type 0
IsSettled mode by_leaf leaf_id leaf members domain after id =
    (member : ResolvedLeaf) × (IsPartner mode by_leaf leaf_id leaf members id member
      × (lookup id after
          ≡ some (record member { leaf_domain_id = domain; leaf_domain_leaves = members })))

settled :
    (mode : Text) (by_leaf : Leaves) (leaf_id : Text) (leaf : ResolvedLeaf) (members : List Text)
    (domain id : Text)
    → ((member : ResolvedLeaf) × IsPartner mode by_leaf leaf_id leaf members id member)
      × (contains id members ≡ true)
    → IsSettled mode by_leaf leaf_id leaf members domain
        (set_domain domain members members by_leaf)
        id
settled mode by_leaf leaf_id leaf members domain id ((member, partner), within) = (
  member,
  (partner, rw (lookup-set_domain domain members members id by_leaf, within, partner.0) refl),
)

-- One turn of assignLeafDomains that succeeds: its members are the trimmed names, not empty, of the
-- leaf and of its peers, and at most two. Each names exactly the others as its peers and shares the
-- room of the leaf and, by the mode, the domain and the kind of its uplinks or its Spine and Border
-- domains. Each of them has the new domain with these members, and no other leaf has changed.
pub assign_domain-IsSettled :
    (H : Hashing) (mode leaf_id : Text) (leaf : ResolvedLeaf) (by_leaf after : Leaves)
    → assign_domain H mode leaf_id leaf by_leaf ≡ ok after
    → ((v : Text)
        → Elem v (members_of H leaf_id leaf)
          ↔ ((v ≢ []) × IsTrimmedOf v (leaf_id ∷ leaf.peer_leaf_ids)))
      × (length (members_of H leaf_id leaf) ≤ 2)
      × All
          (IsSettled mode by_leaf leaf_id leaf
            (members_of H leaf_id leaf)
            (pair_domain H leaf_id (members_of H leaf_id leaf))
            after)
          (members_of H leaf_id leaf)
      × ((j : Text)
          → contains j (members_of H leaf_id leaf) ≡ false
          → lookup j after ≡ lookup j by_leaf)
unfolding assign_domain
assign_domain-IsSettled H mode leaf_id leaf by_leaf after e =
    let ms = members_of H leaf_id leaf in
    let d = pair_domain H leaf_id ms in
    elim (Result-cases (check_members mode by_leaf leaf_id leaf ms ms)) [
      | inr (why, refused) ↦ absurd (ground arith)
      | inl (done, checked) ↦
          let set : set_domain d ms ms by_leaf ≡ after = ground arith in
          (
            (unique_sorted_lem (leaf_id ∷ leaf.peer_leaf_ids)).1,
            ground arith,
            rw (sym set) (
                All-map _ _ (settled mode by_leaf leaf_id leaf ms d) ms (
                  All-both _ _ ms (check_members-IsPartner mode by_leaf leaf_id leaf ms ms checked)
                    (all_contained ms))),
            λ j outside. rw (sym set, lookup-set_domain d ms ms j by_leaf, outside) refl,
          )
    ]
