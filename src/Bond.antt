-- ===== src/Bond.antt =====
-- topology_agent/pkg/bond/discovery.go: which interfaces the topology agent listens on. The files
-- of sysfs and /proc that it reads are a parameter, an answer for each; a map that is ranged over
-- is a list in some order. Logging is left out.
pub mod State
pub mod Found
pub mod Selected
use ngd_ngg_scheduling.Base.{
  ℕ, zero, suc, ◌%◌, ◌≡◌, Bool, true, false, not, ◌&&◌, ◌||◌, List, [], ◌∷◌, ◌++◌, Option, none,
  some, nat_eq, if◌then◌else◌, ◌==◌, lookup, insert, contains, Result, ok, err, ℤ, pos, is_some,
}
use ngd_ngg_scheduling.Text.{Text, Folding, text_Eq, text_lt, lit, is_empty, trim_space}
use ngd_ngg_scheduling.Bond.State.{
  BondState, Files, or_empty, is_physical_wired, classify_interface, link_state, link_up_values,
  discover_bonds,
}

-- InterfaceSelection
pub record InterfaceSelection : Type 0 where
  pub name : Text
  pub index : ℤ
  pub kind : Text
  pub bond_name : Text
  pub bond_mode : Text
  pub bond_slaves : List Text
  pub bond_active_slave : Text
  pub bond_info_source : Text
  pub active : Bool
  pub administrative_up : Bool
  pub link_valid : Bool
  pub physical_wired : Bool
  pub carrier : Text
  pub oper_state : Text
  pub mii_status : Text

abbrev pub Selections : Type 0
Selections = List (Text × InterfaceSelection)

-- net.Interface, as far as it is read: bit 0 of the flags is net.FlagUp.
pub record NetInterface : Type 0 where
  pub index : ℤ
  pub flags : ℕ

pub data SelectError : Type 0 where
  no_sysfs : SelectError
  none_configured : List Text → SelectError
  none_found : SelectError

unfoldable pub place_state : BondState → List BondState → List BondState
place_state b [] = b ∷ []
place_state b (c ∷ cs) =
    let rest = place_state b cs in if text_lt c.name b.name then c ∷ rest else b ∷ c ∷ cs

-- sortedBondStates
unfoldable pub sorted_bond_states : List (Text × BondState) → List BondState
sorted_bond_states [] = []
sorted_bond_states ((name, b) ∷ rest) = place_state b (sorted_bond_states rest)

unfoldable pub place_selection :
    InterfaceSelection → List InterfaceSelection → List InterfaceSelection
place_selection s [] = s ∷ []
place_selection s (t ∷ ts) =
    let rest = place_selection s ts in if text_lt t.name s.name then t ∷ rest else s ∷ t ∷ ts

-- Sorted
unfoldable pub sorted : Selections → List InterfaceSelection
sorted [] = []
sorted ((name, s) ∷ rest) = place_selection s (sorted rest)

-- bondForSlave
unfoldable pub bond_for_slave : List (Text × BondState) → Text → Option BondState
bond_for_slave [] slave = none
bond_for_slave ((name, b) ∷ rest) slave =
    let later = bond_for_slave rest slave in if contains slave b.slaves then some b else later

-- knownSlaves
unfoldable pub known_slaves : List BondState → List Text
known_slaves [] = []
known_slaves (b ∷ bs) = b.slaves ++ known_slaves bs

-- What runtimeLinkState returns: the index, whether the interface is up, and whether its link is.
pub record LinkState : Type 0 where
  pub index : ℤ
  pub administrative_up : Bool
  pub link_valid : Bool

-- The interfaces that selectInterfacesAt looks at: the files, the inventory of net.Interfaces, and
-- whether that inventory counts.
module _ (files : Files) (inventory : List (Text × NetInterface)) (enforce_runtime : Bool) where
  -- runtimeLinkState
  unfoldable pub runtime_link_state : Text → Text → Text → LinkState
  runtime_link_state name carrier oper_state =
      let up = link_up_values files.folding carrier oper_state in
      if not enforce_runtime
      then record { index = pos 0; administrative_up = up; link_valid = up }
      else elim (lookup name inventory) [
        | none ↦ record { index = pos 0; administrative_up = false; link_valid = false }
        | some iface ↦ record {
          index = iface.index;
          administrative_up = nat_eq (iface.flags % 2) 1;
          link_valid = nat_eq (iface.flags % 2) 1 && up;
        }
      ]

  -- linkState and then runtimeLinkState
  unfoldable pub link_of : Text → LinkState
  link_of name = runtime_link_state name (link_state files name).0 (link_state files name).1

  -- bondMasterSelection
  unfoldable pub bond_master_selection : BondState → Option InterfaceSelection
  bond_master_selection b =
      if not (link_of b.name).link_valid
      then none
      else some (record {
        name = b.name;
        index = (link_of b.name).index;
        kind = lit "bond-master";
        bond_name = b.name;
        bond_mode = b.mode;
        bond_slaves = b.slaves;
        bond_active_slave = b.active_slave;
        bond_info_source = b.source;
        active = false;
        administrative_up = (link_of b.name).administrative_up;
        link_valid = (link_of b.name).link_valid;
        physical_wired = false;
        carrier = (link_state files b.name).0;
        oper_state = (link_state files b.name).1;
        mii_status = [];
      })

  -- The Bond masters of automatic mode.
  unfoldable pub select_masters : List BondState → Selections → Selections
  select_masters [] selected = selected
  select_masters (b ∷ rest) selected =
      select_masters rest
        (elim (bond_master_selection b) [ none ↦ selected | some s ↦ insert b.name s selected ])

  -- An interface that is up and in no bond, as both modes select it first.
  unfoldable pub direct_selection : Text → Text → InterfaceSelection
  direct_selection kind name = record {
    name = name;
    index = (link_of name).index;
    kind = kind;
    bond_name = [];
    bond_mode = lit "direct";
    bond_slaves = [];
    bond_active_slave = [];
    bond_info_source = [];
    active = true;
    administrative_up = (link_of name).administrative_up;
    link_valid = (link_of name).link_valid;
    physical_wired = is_physical_wired files name;
    carrier = (link_state files name).0;
    oper_state = (link_state files name).1;
    mii_status = [];
  }

  -- The slave of a bond, as explicit mode selects it.
  unfoldable pub slave_selection : BondState → Text → InterfaceSelection
  slave_selection b name = record (direct_selection (lit "bond-slave") name) {
    bond_name = b.name;
    bond_mode = b.mode;
    bond_slaves = b.slaves;
    bond_active_slave = b.active_slave;
    bond_info_source = b.source;
    active = not (b.mode == lit "active-backup") || (name == b.active_slave);
    mii_status = files.folding.to_lower (trim_space (or_empty (lookup name b.slave_mii)));
  }

  -- What explicit mode makes of one configured name.
  unfoldable pub explicit_selection : List (Text × BondState) → Text → Option InterfaceSelection
  explicit_selection bonds name = elim (lookup name bonds) [
    | some b ↦ bond_master_selection b
    | none ↦
        if files.has_entry name && (link_of name).administrative_up
        then some (elim (bond_for_slave bonds name) [
          | none ↦ direct_selection (classify_interface files name) name
          | some b ↦ slave_selection b name
        ])
        else none
  ]

  -- The loop of explicit mode.
  unfoldable pub select_explicit : List (Text × BondState) → List Text → Selections → Selections
  select_explicit bonds [] selected = selected
  select_explicit bonds (name ∷ rest) selected =
      select_explicit bonds rest
        (elim (explicit_selection bonds name) [ none ↦ selected | some s ↦ insert name s selected ])

  -- Whether automatic mode selects an entry of /sys/class/net that is no bond.
  unfoldable pub is_standalone : List (Text × BondState) → Text → Bool
  is_standalone bonds name =
      not (contains name (known_slaves (sorted_bond_states bonds)))
      && (not (is_some (lookup name bonds))
          && (is_physical_wired files name && (link_of name).link_valid))

  -- The last loop of automatic mode.
  unfoldable pub select_standalone : List (Text × BondState) → List Text → Selections → Selections
  select_standalone bonds [] selected = selected
  select_standalone bonds (name ∷ rest) selected = select_standalone bonds rest (
      if is_standalone bonds name
      then insert name (direct_selection (lit "physical") name) selected
      else selected)

  abbrev pub none_selected : List Text → SelectError
  none_selected [] = none_found
  none_selected (name ∷ names) = none_configured (name ∷ names)

  abbrev pub select_by_mode : List Text → List Text → List (Text × BondState) → Selections
  select_by_mode [] entries bonds =
      select_standalone bonds entries (select_masters (sorted_bond_states bonds) [])
  select_by_mode (name ∷ names) entries bonds = select_explicit bonds (name ∷ names) []

  -- selectInterfacesAt
  unfoldable pub select_interfaces_at : List Text → Result SelectError Selections
  select_interfaces_at explicit = elim files.entries [
    | none ↦ err no_sysfs
    | some entries ↦ elim (select_by_mode explicit entries (discover_bonds files entries)) [
      | [] ↦ err (none_selected explicit)
      | s ∷ rest ↦ ok (s ∷ rest)
    ]
  ]
