-- ===== src/Bond/Selected.antt =====
-- Which interfaces selectInterfacesAt lets through.
use mathlib.Core.Path.{subst}
use ngd_ngg_scheduling.Base.{
  Elem, ◌%◌, ◌≡◌, refl, sym, ap, ◌≢◌, ◌⊎◌, inl, inr, Bool, true, false, List, [], ◌∷◌, Option, none,
  some, lookup, insert, contains, ok, All, arith, Option-cases, Bool-cases,
}
use ngd_ngg_scheduling.Text.{Text, text_Eq, lit, trim_space}
use ngd_ngg_scheduling.Bond.State.{
  BondState, Files, or_empty, read_file, is_physical_wired, link_state, link_up_values,
  discover_bonds,
}
use ngd_ngg_scheduling.Bond.Found.{
  IsBond, All-insert, discover_bonds-IsShown, sorted_bond_states-All, known_slaves-none, Elem-self,
}
use ngd_ngg_scheduling.Bond.{
  InterfaceSelection, Selections, NetInterface, sorted_bond_states, runtime_link_state, link_of,
  bond_master_selection, select_masters, direct_selection, is_standalone, select_standalone,
  select_by_mode, select_interfaces_at,
}

All-both-map :
    {A : Type 0} (P Q R : A → Type 0) (f : (a : A) → P a → Q a → R a) (xs : List A)
    → All P xs
    → All Q xs
    → All R xs
All-both-map P Q R f [] h k = tt
All-both-map P Q R f (x ∷ xs) h k = (f x h.0 k.0, All-both-map P Q R f xs h.1 k.1)

some-injective : {A : Type 0} (a b : A) → some a ≡ some b → a ≡ b
some-injective a b h = cc

module _ (files : Files) (inventory : List (Text × NetInterface)) (enforce_runtime : Bool) where
  -- The link of an interface is up by its files and, where the inventory counts, the interface is
  -- there and up.
  abbrev pub IsUp : Text → Type 0
  IsUp name =
      ((trim_space (or_empty (files.attribute name (lit "carrier"))) ≡ lit "1")
        ⊎ (files.folding.equal_fold (trim_space (or_empty (files.attribute name (lit "operstate"))))
              (lit "up")
            ≡ true))
      × (enforce_runtime ≡ true
          → (iface : NetInterface) × (lookup name inventory ≡ some iface) × (iface.flags % 2 ≡ 1))

  -- A device of its own, of the Ethernet type and not wireless.
  abbrev pub IsWired : Text → Type 0
  IsWired name =
      (files.has_attribute name (lit "device") ≡ true)
      × (trim_space (or_empty (files.attribute name (lit "type"))) ≡ lit "1")
      × (files.has_attribute name (lit "wireless") ≡ false)
      × (files.has_attribute name (lit "phy80211") ≡ false)

  -- The master of one of the bonds, which the host shows, with the mode and the slaves of that bond.
  abbrev pub IsMaster : List (Text × BondState) → InterfaceSelection → Type 0
  IsMaster bonds s =
      (b : BondState) × Elem (s.name, b) bonds
      × IsBond files s.name
      × IsUp s.name
      × (s.kind ≡ lit "bond-master")
      × (s.bond_name ≡ s.name)
      × (s.bond_mode ≡ b.mode)
      × (s.bond_slaves ≡ b.slaves)
      × (s.link_valid ≡ true)
      × (s.active ≡ false)

  -- A wired device of its own, no bond and no slave of one, whose link is valid.
  abbrev pub IsStandalone : List (Text × BondState) → InterfaceSelection → Type 0
  IsStandalone bonds s =
      (s.kind ≡ lit "physical")
      × IsWired s.name
      × IsUp s.name
      × (s.link_valid ≡ true)
      × All (λ e. contains s.name e.1.slaves ≡ false) bonds
      × (lookup s.name bonds ≡ none)

  -- What automatic mode may select under a name.
  abbrev pub IsAutomatic : List (Text × BondState) → Text × InterfaceSelection → Type 0
  IsAutomatic bonds entry =
      (entry.1.name ≡ entry.0) × (IsMaster bonds entry.1 ⊎ IsStandalone bonds entry.1)

  link_of-IsUp :
      (name : Text) → (link_of files inventory enforce_runtime name).link_valid ≡ true → IsUp name
  unfolding link_of runtime_link_state link_state link_up_values read_file
  link_of-IsUp name h = (
    ground (
      arith,
      text_Eq.beq_iff (trim_space (or_empty (files.attribute name (lit "carrier")))) (lit "1"),
    ),
    λ enforced. elim (Option-cases (lookup name inventory)) [
      | inl e ↦ absurd (ground arith)
      | inr (iface, e) ↦ (iface, e, ground arith)
    ],
  )

  is_physical_wired-IsWired : (name : Text) → is_physical_wired files name ≡ true → IsWired name
  unfolding is_physical_wired read_file
  is_physical_wired-IsWired name h =
      ground (
        arith,
        text_Eq.beq_iff (trim_space (or_empty (files.attribute name (lit "type")))) (lit "1"),
      )

  -- A bond that stands under its own name, and that the host shows.
  abbrev IsListed : List (Text × BondState) → BondState → Type 0
  IsListed bonds b = Elem (b.name, b) bonds × IsBond files b.name

  bond_master_selection-IsMaster :
      (bonds : List (Text × BondState)) (b : BondState) (s : InterfaceSelection)
      → IsListed bonds b
      → bond_master_selection files inventory enforce_runtime b ≡ some s
      → (s.name ≡ b.name) × IsMaster bonds s
  unfolding bond_master_selection
  bond_master_selection-IsMaster bonds b s listed e =
      elim (Bool-cases (link_of files inventory enforce_runtime b.name).link_valid) [
        | inr down ↦ absurd (ground arith)
        | inl up ↦
            let made = some-injective _ s (rw up at e) in
            subst (λ t. (t.name ≡ b.name) × IsMaster bonds t) made
              (
                refl,
                (b, listed.0, listed.1, link_of-IsUp b.name up, refl, refl, refl, refl, refl, refl),
              )
      ]

  select_masters-IsAutomatic :
      (bonds : List (Text × BondState)) (bs : List BondState) (selected : Selections)
      → All (IsListed bonds) bs
      → All (IsAutomatic bonds) selected
      → All (IsAutomatic bonds) (select_masters files inventory enforce_runtime bs selected)
  unfolding select_masters
  select_masters-IsAutomatic bonds [] selected l h = h
  select_masters-IsAutomatic bonds (b ∷ rest) selected l h =
      elim (Option-cases (bond_master_selection files inventory enforce_runtime b)) [
        | inl e ↦ rw e (select_masters-IsAutomatic bonds rest selected l.1 h)
        | inr (s, e) ↦
            let (named, master) = bond_master_selection-IsMaster bonds b s l.0 e in
            rw e (
              select_masters-IsAutomatic bonds rest (insert b.name s selected) l.1
                (All-insert (IsAutomatic bonds) b.name s selected (named, inl master) h))
      ]

  direct_selection-IsStandalone :
      (bonds : List (Text × BondState)) (name : Text)
      → is_standalone files inventory enforce_runtime bonds name ≡ true
      → IsStandalone bonds (direct_selection files inventory enforce_runtime (lit "physical") name)
  unfolding is_standalone direct_selection
  direct_selection-IsStandalone bonds name e = elim (Option-cases (lookup name bonds)) [
    | inl none_there ↦
        let up : (link_of files inventory enforce_runtime name).link_valid ≡ true = ground arith in
        let free = known_slaves-none name (sorted_bond_states bonds) (ground arith) in
        (
          refl,
          is_physical_wired-IsWired name (ground arith),
          link_of-IsUp name up,
          up,
          (sorted_bond_states-All (λ b. contains name b.slaves ≡ false) bonds).1 free,
          none_there,
        )
    | inr (b, there) ↦ absurd (ground arith)
  ]

  direct_selection-name :
      (kind name : Text) → (direct_selection files inventory enforce_runtime kind name).name ≡ name
  unfolding direct_selection
  direct_selection-name kind name = refl

  select_standalone-IsAutomatic :
      (bonds : List (Text × BondState)) (names : List Text) (selected : Selections)
      → All (IsAutomatic bonds) selected
      → All
          (IsAutomatic bonds)
          (select_standalone files inventory enforce_runtime bonds names selected)
  unfolding select_standalone
  select_standalone-IsAutomatic bonds [] selected h = h
  select_standalone-IsAutomatic bonds (name ∷ rest) selected h =
      elim (Bool-cases (is_standalone files inventory enforce_runtime bonds name)) [
        | inl e ↦
            let s = direct_selection files inventory enforce_runtime (lit "physical") name in
            rw e (
              select_standalone-IsAutomatic bonds rest (insert name s selected) (
                All-insert (IsAutomatic bonds) name s selected
                  (
                    direct_selection-name (lit "physical") name,
                    inr (direct_selection-IsStandalone bonds name e),
                  )
                  h))
        | inr e ↦ rw e (select_standalone-IsAutomatic bonds rest selected h)
      ]

  -- The bonds that are discovered.
  abbrev pub bonds_in : Option (List Text) → List (Text × BondState)
  bonds_in none = []
  bonds_in (some entries) = discover_bonds files entries

  -- What selectInterfacesAt returns is what its mode has selected, and not empty.
  select_interfaces_at_parts :
      (explicit : List Text) (selected : Selections)
      → select_interfaces_at files inventory enforce_runtime explicit ≡ ok selected
      → (entries : List Text) × ((files.entries ≡ some entries)
          × ((select_by_mode files inventory enforce_runtime explicit entries
                  (discover_bonds files entries)
                ≡ selected)
              × (selected ≢ [])))
  unfolding select_interfaces_at
  select_interfaces_at_parts explicit selected e = elim (Option-cases files.entries) [
    | inl unread ↦ absurd (ground arith)
    | inr (entries, read) ↦ (entries, (read, ground arith))
  ]

  discovered-IsListed :
      (entries : List Text)
      → let bonds = discover_bonds files entries in All (IsListed bonds) (sorted_bond_states bonds)
  discovered-IsListed entries =
      let bonds = discover_bonds files entries in
      (sorted_bond_states-All (IsListed bonds) bonds).0 (
        All-both-map _ _ _
          (λ e shown here. (
            subst (λ name. Elem (name, e.1) bonds) (sym shown.0) here,
            subst (IsBond files) (sym shown.0) shown.1,
          ))
          bonds (discover_bonds-IsShown files entries) (Elem-self bonds))

  -- Automatic mode, where no interface is configured, returns at least one interface or an error,
  -- and each one that it returns has a link that is up and is either the master of a discovered bond,
  -- with its mode and its slaves and never called active, or a wired device that is no bond and the
  -- slave of none.
  pub select_interfaces_at-IsAutomatic :
      (selected : Selections)
      → select_interfaces_at files inventory enforce_runtime [] ≡ ok selected
      → (selected ≢ []) × All (IsAutomatic (bonds_in files.entries)) selected
  select_interfaces_at-IsAutomatic selected e =
      let (entries, (read, (chosen, filled))) = select_interfaces_at_parts [] selected e in
      (
        filled,
        rw (ap bonds_in read, sym chosen)
            (select_standalone-IsAutomatic (discover_bonds files entries) entries _ (
              select_masters-IsAutomatic (discover_bonds files entries)
                (sorted_bond_states (discover_bonds files entries)) [] (discovered-IsListed entries)
                tt)),
      )
