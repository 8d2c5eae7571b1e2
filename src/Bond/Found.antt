-- ===== src/Bond/Found.antt =====
-- The bonds that discoverBonds finds: each stands under its own name, and the host shows it.
use ngd_ngg_scheduling.Base.{
  ◌≡◌, refl, ◌∙◌, ◌↔◌, ◌⊎◌, inl, inr, Bool, true, false, ◌||◌, List, [], ◌∷◌, ◌++◌, Option, none,
  some, ◌==◌, lookup, insert, contains, arith, All, All-map, Elem, Bool-cases, Option-cases,
}
use ngd_ngg_scheduling.Text.{Text, Folding, text_Eq, lit, trim_space, text_lt}
use ngd_ngg_scheduling.Text.Split.{cut, split}
use ngd_ngg_scheduling.Bond.State.{
  BondState, Files, proc_field, proc_lines, parse_proc_bond, sysfs_bond, sysfs_bonds, merge_bond,
  proc_bonds, discover_bonds,
}
use ngd_ngg_scheduling.Bond.{place_state, sorted_bond_states, known_slaves}

pub All-insert :
    {V : Type 0} (P : Text × V → Type 0) (key : Text) (v : V) (m : List (Text × V))
    → P (key, v)
    → All P m
    → All P (insert key v m)
unfolding insert
All-insert P key v [] h all = (h, tt)
All-insert P key v ((j, w) ∷ m) h all = elim (Bool-cases (key == j)) [
  | inl e ↦ rw e (h, all.1)
  | inr e ↦ rw e (all.0, All-insert P key v m h all.1)
]

-- The host shows a bond of the name, in sysfs or in /proc/net/bonding.
abbrev pub IsBond : Files → Text → Type 0
IsBond files name =
    ((mode : Text) × (files.attribute name (lit "bonding/mode") ≡ some mode))
    ⊎ ((payload : Text) × (files.proc_file name ≡ some payload))

-- The bond of an entry has the name of its key, and the host shows it.
abbrev pub IsShown : Files → Text × BondState → Type 0
IsShown files e = (e.1.name ≡ e.0) × IsBond files e.0

shown_name :
    (files : Files) (name : Text) (b : BondState) (m : List (Text × BondState))
    → All (IsShown files) m
    → lookup name m ≡ some b
    → b.name ≡ name
unfolding lookup
shown_name files name b [] all h = cc
shown_name files name b ((j, w) ∷ m) all h =
    ground (arith, text_Eq.beq_iff name j, shown_name files name b m all.1)

proc_field-name :
    (fold : Folding) (key value : Text) (s : BondState × Text)
    → (proc_field fold key value s).0.name ≡ s.0.name
unfolding proc_field
proc_field-name fold key value (b, slave) = ground arith

proc_lines-name :
    (fold : Folding) (lines : List Text) (s : BondState × Text)
    → (proc_lines fold lines s).0.name ≡ s.0.name
unfolding proc_lines
proc_lines-name fold [] s = refl
proc_lines-name fold (raw ∷ rest) s = elim (Option-cases (cut b':' (trim_space raw))) [
  | inl e ↦ rw (e, proc_lines) (proc_lines-name fold rest s)
  | inr ((key, value), e) ↦
      rw (e, proc_lines)
        (proc_lines-name fold rest (proc_field fold (trim_space key) (trim_space value) s)
          ∙ proc_field-name fold (trim_space key) (trim_space value) s)
]

parse_proc_bond-name :
    (fold : Folding) (name payload : Text) → (parse_proc_bond fold name payload).name ≡ name
unfolding parse_proc_bond
parse_proc_bond-name fold name payload = proc_lines-name fold (split 0x0a payload) (
  record { name = name; mode = []; slaves = []; active_slave = []; slave_mii = []; source = [] },
  [],
)

merge_bond-name :
    (parsed : BondState) (o : Option BondState) (name : Text)
    → parsed.name ≡ name
    → ((b : BondState) → o ≡ some b → b.name ≡ name)
    → (merge_bond parsed o).name ≡ name
unfolding merge_bond
merge_bond-name parsed none name h k = h
merge_bond-name parsed (some b) name h k = k b refl

sysfs_bonds-IsShown :
    (files : Files) (names : List Text) (bonds : List (Text × BondState))
    → All (IsShown files) bonds
    → All (IsShown files) (sysfs_bonds files names bonds)
unfolding sysfs_bonds sysfs_bond
sysfs_bonds-IsShown files [] bonds h = h
sysfs_bonds-IsShown files (name ∷ rest) bonds h =
    elim (Option-cases (files.attribute name (lit "bonding/mode"))) [
      | inl e ↦ rw e (sysfs_bonds-IsShown files rest bonds h)
      | inr (mode, e) ↦ rw e (
          sysfs_bonds-IsShown files rest _ (
            All-insert (IsShown files) name (sysfs_bond files name mode) bonds (refl, inl (mode, e))
              h))
    ]

proc_bonds-IsShown :
    (files : Files) (procs : List (Text × Bool)) (bonds : List (Text × BondState))
    → All (IsShown files) bonds
    → All (IsShown files) (proc_bonds files procs bonds)
unfolding proc_bonds
proc_bonds-IsShown files [] bonds h = h
proc_bonds-IsShown files ((name, true) ∷ rest) bonds h = proc_bonds-IsShown files rest bonds h
proc_bonds-IsShown files ((name, false) ∷ rest) bonds h =
    elim (Option-cases (files.proc_file name)) [
      | inl e ↦ rw e (proc_bonds-IsShown files rest bonds h)
      | inr (payload, e) ↦
          let parsed = parse_proc_bond files.folding name payload in
          rw e (
            proc_bonds-IsShown files rest _ (
              All-insert (IsShown files) name (merge_bond parsed (lookup name bonds)) bonds
                (
                  merge_bond-name parsed (lookup name bonds) name
                      (parse_proc_bond-name files.folding name payload)
                      (λ b found. shown_name files name b bonds h found),
                  inr (payload, e),
                )
                h))
    ]

-- Every bond that discoverBonds returns stands under its own name and is one that the host shows.
pub discover_bonds-IsShown :
    (files : Files) (entries : List Text) → All (IsShown files) (discover_bonds files entries)
unfolding discover_bonds
discover_bonds-IsShown files entries = listed files.proc_entries
  where
    shown : All (IsShown files) (sysfs_bonds files entries [])
    shown = sysfs_bonds-IsShown files entries [] tt

    listed :
        (o : Option (List (Text × Bool)))
        → All (IsShown files) (elim o [
          | none ↦ sysfs_bonds files entries []
          | some procs ↦ proc_bonds files procs (sysfs_bonds files entries [])
        ])
    listed none = shown
    listed (some procs) = proc_bonds-IsShown files procs (sysfs_bonds files entries []) shown

module _ (P : BondState → Type 0) where
  place_state-All :
      (b : BondState) (bs : List BondState) → (P b × All P bs) ↔ All P (place_state b bs)
  unfolding place_state
  place_state-All b [] = (λ h. h, λ h. h)
  place_state-All b (c ∷ cs) = elim (Bool-cases (text_lt c.name b.name)) [
    | inl e ↦
        let rest = place_state-All b cs in
        rw e (λ h. (h.1.0, rest.0 (h.0, h.1.1)), λ h. ((rest.1 h.1).0, (h.0, (rest.1 h.1).1)))
    | inr e ↦ rw e (λ h. h, λ h. h)
  ]

  -- Sorting keeps the bonds.
  pub sorted_bond_states-All :
      (m : List (Text × BondState)) → All (λ e. P e.1) m ↔ All P (sorted_bond_states m)
  unfolding sorted_bond_states
  sorted_bond_states-All [] = (λ h. h, λ h. h)
  sorted_bond_states-All ((name, b) ∷ rest) =
      let placed = place_state-All b (sorted_bond_states rest) in
      let more = sorted_bond_states-All rest in
      (λ h. placed.0 (h.0, more.0 h.1), λ h. ((placed.1 h).0, more.1 (placed.1 h).1))

contains-append :
    (x : Text) (xs ys : List Text) → contains x (xs ++ ys) ≡ (contains x xs || contains x ys)
unfolding contains
contains-append x [] ys = refl
contains-append x (y ∷ xs) ys = ground (arith, contains-append x xs ys)

-- A name that is no known slave is a slave of none of the bonds.
pub known_slaves-none :
    (name : Text) (bs : List BondState)
    → contains name (known_slaves bs) ≡ false
    → All (λ b. contains name b.slaves ≡ false) bs
unfolding known_slaves
known_slaves-none name [] h = tt
known_slaves-none name (b ∷ bs) h =
    let split = contains-append name b.slaves (known_slaves bs) in
    (ground (arith, split), known_slaves-none name bs (ground (arith, split)))

pub Elem-self : {A : Type 0} (xs : List A) → All (λ x. Elem x xs) xs
Elem-self [] = tt
Elem-self (x ∷ xs) = (inl refl, All-map _ _ (λ y m. inr m) xs (Elem-self xs))
