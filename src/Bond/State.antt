-- ===== src/Bond/State.antt =====
-- What topology_agent/pkg/bond/discovery.go reads of the interfaces and of their bonds.
use ngd_ngg_scheduling.Base.{
  Bool, not, ◌&&◌, ◌||◌, List, [], ◌∷◌, ◌++◌, Option, none, some, if◌then◌else◌, ◌==◌, lookup,
  insert,
}
use ngd_ngg_scheduling.Text.{Text, Folding, text_Eq, lit, is_empty, trim_space}
use ngd_ngg_scheduling.Text.Split.{fields, split, cut, contains_text}

-- bondState
pub record BondState : Type 0 where
  pub name : Text
  pub mode : Text
  pub slaves : List Text
  pub active_slave : Text
  pub slave_mii : List (Text × Text)
  pub source : Text

-- What the host answers: the entries of /sys/class/net, whether one of them is there, the contents
-- of a file below it and whether the file is there, the entries of /proc/net/bonding with IsDir, and
-- their contents.
pub record Files : Type 0 where
  pub folding : Folding
  pub entries : Option (List Text)
  pub has_entry : Text → Bool
  pub attribute : Text → Text → Option Text
  pub has_attribute : Text → Text → Bool
  pub proc_entries : Option (List (Text × Bool))
  pub proc_file : Text → Option Text

-- The aliases of normalizeMode.
abbrev pub mode_aliases : List (Text × Text)
mode_aliases =
    (lit "1", lit "active-backup")
    ∷ (lit "0", lit "balance-rr")
    ∷ (lit "2", lit "balance-xor")
    ∷ (lit "3", lit "broadcast")
    ∷ (lit "4", lit "802.3ad")
    ∷ (lit "5", lit "balance-tlb")
    ∷ (lit "6", lit "balance-alb")
    ∷ []

abbrev pub or_empty : Option Text → Text
or_empty none = []
or_empty (some s) = s

module _ (fold : Folding) where
  abbrev first_mode : List Text → Text
  first_mode [] = lit "unknown"
  first_mode (word ∷ words) = elim (lookup (fold.to_lower word) mode_aliases) [
    | none ↦ fold.to_lower word
    | some normalized ↦ normalized
  ]

  -- normalizeMode
  unfoldable pub normalize_mode : Text → Text
  unfolding lookup fields trim_space
  normalize_mode raw = first_mode (fields (trim_space raw))

  -- normalizeProcMode
  unfoldable pub normalize_proc_mode : Text → Text
  unfolding contains_text trim_space
  normalize_proc_mode value =
      let lower = fold.to_lower (trim_space value) in
      if contains_text lower (lit "active-backup")
      then lit "active-backup"
      else if contains_text lower (lit "802.3ad")
      then lit "802.3ad"
      else if contains_text lower (lit "balance-xor")
      then lit "balance-xor"
      else if contains_text lower (lit "round-robin")
      then lit "balance-rr"
      else if contains_text lower (lit "broadcast")
      then lit "broadcast"
      else if contains_text lower (lit "transmit load balancing")
      then lit "balance-tlb"
      else if contains_text lower (lit "adaptive load balancing")
      then lit "balance-alb"
      else lower

  -- The switch of parseProcBond on a key: the state and the current slave.
  unfoldable pub proc_field : Text → Text → BondState × Text → BondState × Text
  unfolding normalize_proc_mode insert
  proc_field key value (b, slave) =
      if key == lit "Bonding Mode"
      then (record b { mode = normalize_proc_mode value }, slave)
      else if key == lit "Currently Active Slave"
      then ((if value == lit "None" then b else record b { active_slave = value }), slave)
      else if key == lit "Slave Interface"
      then (record b { slaves = b.slaves ++ (value ∷ []) }, value)
      else if key == lit "MII Status"
      then (
        (if is_empty slave
            then b
            else record b { slave_mii = insert slave (fold.to_lower value) b.slave_mii }),
        slave,
      )
      else (b, slave)

  -- The loop of parseProcBond.
  unfoldable pub proc_lines : List Text → BondState × Text → BondState × Text
  unfolding proc_field cut trim_space
  proc_lines [] b = b
  proc_lines (raw ∷ rest) b = proc_lines rest (elim (cut b':' (trim_space raw)) [
    | none ↦ b
    | some (key, value) ↦ proc_field (trim_space key) (trim_space value) b
  ])

  -- parseProcBond
  unfoldable pub parse_proc_bond : Text → Text → BondState
  unfolding proc_lines split
  parse_proc_bond name payload =
      (proc_lines (split 0x0a payload) (
        record {
          name = name;
          mode = [];
          slaves = [];
          active_slave = [];
          slave_mii = [];
          source = [];
        },
        [],
      )).0

-- readFile of a file below an interface
unfoldable pub read_file : Files → Text → Text → Text
read_file files name path = or_empty (files.attribute name path)

-- isPhysicalWired
unfoldable pub is_physical_wired : Files → Text → Bool
unfolding read_file trim_space
is_physical_wired files name =
    files.has_attribute name (lit "device")
    && ((trim_space (read_file files name (lit "type")) == lit "1")
        && (not (files.has_attribute name (lit "wireless"))
            && not (files.has_attribute name (lit "phy80211"))))

-- classifyInterface
unfoldable pub classify_interface : Files → Text → Text
unfolding is_physical_wired
classify_interface files name =
    if is_physical_wired files name then lit "physical" else lit "explicit-virtual-or-unknown"

-- linkState: the carrier and the operational state.
unfoldable pub link_state : Files → Text → Text × Text
unfolding read_file trim_space
link_state files name = (
  trim_space (read_file files name (lit "carrier")),
  trim_space (read_file files name (lit "operstate")),
)

-- linkUpValues
unfoldable pub link_up_values : Folding → Text → Text → Bool
link_up_values fold carrier oper_state =
    (carrier == lit "1") || fold.equal_fold oper_state (lit "up")

-- The bond of one entry of /sys/class/net.
unfoldable pub sysfs_bond : Files → Text → Text → BondState
unfolding normalize_mode fields trim_space read_file
sysfs_bond files name mode_raw = record {
  name = name;
  mode = normalize_mode files.folding mode_raw;
  slaves = fields (read_file files name (lit "bonding/slaves"));
  active_slave = trim_space (read_file files name (lit "bonding/active_slave"));
  slave_mii = [];
  source = lit "sysfs";
}

-- The first loop of discoverBonds.
unfoldable pub sysfs_bonds : Files → List Text → List (Text × BondState) → List (Text × BondState)
unfolding sysfs_bond insert
sysfs_bonds files [] bonds = bonds
sysfs_bonds files (name ∷ rest) bonds =
    sysfs_bonds files rest (elim (files.attribute name (lit "bonding/mode")) [
      | none ↦ bonds
      | some mode_raw ↦ insert name (sysfs_bond files name mode_raw) bonds
    ])

-- What the second loop makes of a bond that sysfs has shown.
unfoldable pub complete_bond : BondState → BondState → BondState
complete_bond parsed current = record current {
  mode =
      if is_empty current.mode || (current.mode == lit "unknown")
      then parsed.mode
      else current.mode;
  slaves = elim current.slaves [ [] ↦ parsed.slaves | s ∷ ss ↦ current.slaves ];
  active_slave =
      if is_empty current.active_slave || (current.active_slave == lit "None")
      then parsed.active_slave
      else current.active_slave;
  slave_mii = parsed.slave_mii;
  source = lit "sysfs+/proc/net/bonding";
}

unfoldable pub merge_bond : BondState → Option BondState → BondState
unfolding complete_bond
merge_bond parsed none = record parsed { source = lit "/proc/net/bonding" }
merge_bond parsed (some current) = complete_bond parsed current

-- The second loop of discoverBonds.
unfoldable pub proc_bonds :
    Files → List (Text × Bool) → List (Text × BondState) → List (Text × BondState)
unfolding merge_bond parse_proc_bond insert lookup
proc_bonds files [] bonds = bonds
proc_bonds files ((name, is_dir) ∷ rest) bonds = proc_bonds files rest (
    if is_dir then bonds else elim (files.proc_file name) [
      | none ↦ bonds
      | some payload ↦
          insert name (merge_bond (parse_proc_bond files.folding name payload) (lookup name bonds))
            bonds
    ])

-- discoverBonds
unfoldable pub discover_bonds : Files → List Text → List (Text × BondState)
unfolding sysfs_bonds proc_bonds
discover_bonds files entries = elim files.proc_entries [
  | none ↦ sysfs_bonds files entries []
  | some procs ↦ proc_bonds files procs (sysfs_bonds files entries [])
]
