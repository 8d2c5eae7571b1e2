-- ===== src/Lldp.antt =====
-- topology_agent/lldp.go: LLDP frames as the topology agent reads them, and the neighbours that
-- they announce.
-- The time of receipt of a neighbour is left out, and so is logging.
pub mod Tlvs
pub mod Frames
use ngd_ngg_scheduling.Base.{
  ℕ, zero, suc, ◌+◌, ◌*◌, ◌/◌, ◌%◌, ◌≡◌, Bool, true, false, not, ◌&&◌, ◌||◌, List, [], ◌∷◌, ◌++◌,
  Option, none, some, ltb, leb, nat_eq, if◌then◌else◌, length, take, drop, ◌==◌, lookup, ℕ_eq, ℤ,
  pos,
}
use ngd_ngg_scheduling.Text.{Text, text_Eq, lit, is_empty, trim_space}
use ngd_ngg_scheduling.Text.Print.{hex, byte_decimal, mac_text, ip_text}
use ngd_ngg_scheduling.Sets.{sort_strings}
use ngd_ngg_scheduling.Bond.{InterfaceSelection}

-- lldpNeighbor
pub record LldpNeighbor : Type 0 where
  pub local_interface : Text
  pub local_interface_index : ℤ
  pub local_interface_kind : Text
  pub local_interface_carrier : Text
  pub local_interface_state : Text
  pub local_interface_link_up : Bool
  pub bond_master : Text
  pub bond_mode : Text
  pub bond_slaves : List Text
  pub bond_active_slave : Text
  pub bond_info_source : Text
  pub bond_slave_mii_status : Text
  pub source_mac : Text
  pub destination_mac : Text
  pub chassis_id_subtype : Text
  pub chassis_id : Text
  pub port_id_subtype : Text
  pub port_id : Text
  pub port_description : Text
  pub system_name : Text
  pub system_description : Text
  pub ttl_seconds : ℕ
  pub management_addresses : List Text
  pub enabled_capabilities : List Text
  pub supported_capabilities : List Text
  pub looks_like_local_host : Bool

-- `lldpNeighbor{}`
abbrev pub no_neighbor : LldpNeighbor
no_neighbor = record {
  local_interface = [];
  local_interface_index = pos 0;
  local_interface_kind = [];
  local_interface_carrier = [];
  local_interface_state = [];
  local_interface_link_up = false;
  bond_master = [];
  bond_mode = [];
  bond_slaves = [];
  bond_active_slave = [];
  bond_info_source = [];
  bond_slave_mii_status = [];
  source_mac = [];
  destination_mac = [];
  chassis_id_subtype = [];
  chassis_id = [];
  port_id_subtype = [];
  port_id = [];
  port_description = [];
  system_name = [];
  system_description = [];
  ttl_seconds = 0;
  management_addresses = [];
  enabled_capabilities = [];
  supported_capabilities = [];
  looks_like_local_host = false;
}

-- lldpNeighbor.switchID
unfoldable pub switch_id : LldpNeighbor → Text
switch_id n = if is_empty n.system_name then n.chassis_id else n.system_name

-- binary.BigEndian.Uint16 of two bytes
abbrev pub uint16 : ℕ → ℕ → ℕ
uint16 a b = a * 256 + b

-- The names of the identifiers in a TLV of type 1.
abbrev pub chassis_names : List (ℕ × Text)
chassis_names =
    (1, lit "chassis-component")
    ∷ (2, lit "interface-alias")
    ∷ (3, lit "port-component")
    ∷ (4, lit "mac-address")
    ∷ (5, lit "network-address")
    ∷ (6, lit "interface-name")
    ∷ (7, lit "locally-assigned")
    ∷ []

-- The same in a TLV of type 2.
abbrev pub port_names : List (ℕ × Text)
port_names =
    (1, lit "interface-alias")
    ∷ (2, lit "port-component")
    ∷ (3, lit "mac-address")
    ∷ (4, lit "network-address")
    ∷ (5, lit "interface-name")
    ∷ (6, lit "agent-circuit-id")
    ∷ (7, lit "locally-assigned")
    ∷ []

unfoldable pub subtype_name : Bool → ℕ → Text
unfolding lookup byte_decimal
subtype_name chassis subtype =
    elim (lookup subtype (if chassis then chassis_names else port_names)) [
      | none ↦ lit "unknown-" ++ byte_decimal subtype
      | some name ↦ name
    ]

-- decodeNetworkAddress
unfoldable pub decode_network_address : Text → Text
unfolding ip_text byte_decimal hex
decode_network_address [] = []
decode_network_address (kind ∷ value) =
    if (nat_eq (length value) 4 && nat_eq kind 1) || (nat_eq (length value) 16 && nat_eq kind 2)
    then ip_text value
    else if is_empty value
    then []
    else lit "type-" ++ (byte_decimal kind ++ (b':' ∷ hex value))

-- decodeIdentifier: the name of the subtype and the identifier.
unfoldable pub decode_identifier : Text → Bool → Text × Text
unfolding subtype_name mac_text decode_network_address trim_space
decode_identifier [] chassis = ([], [])
decode_identifier (subtype ∷ value) chassis =
    let name = subtype_name chassis subtype in
    if is_empty value
    then ([], [])
    else if (name == lit "mac-address") && nat_eq (length value) 6
    then (name, mac_text value)
    else if (name == lit "network-address") && leb 2 (length value)
    then (name, decode_network_address value)
    else (name, trim_space value)

-- decodeManagementAddress
unfoldable pub decode_management_address : Text → Text
unfolding decode_network_address
decode_management_address [] = []
decode_management_address (n ∷ value) =
    if is_empty value
    then []
    else if ltb n 2 || ltb (suc (length value)) (1 + n)
    then []
    else decode_network_address (take n value)

-- The bits and names of decodeCapabilities.
abbrev pub capability_names : List (ℕ × Text)
capability_names =
    (1, lit "other")
    ∷ (2, lit "repeater")
    ∷ (4, lit "bridge")
    ∷ (8, lit "wlan-ap")
    ∷ (16, lit "router")
    ∷ (32, lit "telephone")
    ∷ (64, lit "docsis")
    ∷ (128, lit "station-only")
    ∷ (256, lit "cvlan")
    ∷ (512, lit "svlan")
    ∷ (1024, lit "two-port-mac-relay")
    ∷ []

-- The names whose bit, a power of two, is set.
unfoldable pub set_names : List (ℕ × Text) → ℕ → List Text
set_names [] bits = []
set_names ((bit, name) ∷ rest) bits =
    let more = set_names rest bits in if nat_eq (bits / bit % 2) 0 then more else name ∷ more

-- `decode` of decodeCapabilities
unfoldable pub capabilities : ℕ → List Text
unfolding set_names sort_strings
capabilities bits = sort_strings (set_names capability_names bits)

-- decodeCapabilities
unfoldable pub decode_capabilities : Text → List Text × List Text
unfolding capabilities
decode_capabilities (a ∷ b ∷ c ∷ d ∷ []) = (capabilities (uint16 a b), capabilities (uint16 c d))
decode_capabilities _ = ([], [])

-- The TTL of a TLV of type 3; the old one where its length is not 2.
unfoldable pub ttl_of : Text → ℕ → ℕ
ttl_of (a ∷ b ∷ []) old = uint16 a b
ttl_of _ old = old

unfoldable pub append_address : Text → List Text → List Text
append_address address addresses =
    if is_empty address then addresses else addresses ++ (address ∷ [])

-- The cases 1 to 8 of the switch of parseLLDPFrame.
unfoldable pub put_tlv : ℕ → Text → LldpNeighbor → LldpNeighbor
unfolding decode_identifier ttl_of trim_space decode_capabilities append_address
    decode_management_address
put_tlv kind value n =
    if nat_eq kind 1
    then record n {
      chassis_id_subtype = (decode_identifier value true).0;
      chassis_id = (decode_identifier value true).1;
    }
    else if nat_eq kind 2
    then record n {
      port_id_subtype = (decode_identifier value false).0;
      port_id = (decode_identifier value false).1;
    }
    else if nat_eq kind 3
    then record n { ttl_seconds = ttl_of value n.ttl_seconds }
    else if nat_eq kind 4
    then record n { port_description = trim_space value }
    else if nat_eq kind 5
    then record n { system_name = trim_space value }
    else if nat_eq kind 6
    then record n { system_description = trim_space value }
    else if nat_eq kind 7
    then record n {
      supported_capabilities = (decode_capabilities value).0;
      enabled_capabilities = (decode_capabilities value).1;
    }
    else if nat_eq kind 8
    then record n {
      management_addresses =
          append_address (decode_management_address value) n.management_addresses;
    }
    else n

-- What the loop of parseLLDPFrame comes to; `stuck`: the fuel was not enough.
pub data Walk : Type 0 where
  finished : LldpNeighbor → Walk
  malformed : Walk
  stuck : Walk

-- The loop over the payload, where the list is what is left of it behind the offset.
unfoldable pub walk : ℕ → Text → LldpNeighbor → Walk
walk fuel [] n = finished n
walk fuel (a ∷ []) n = finished n
walk zero (a ∷ b ∷ rest) n = stuck
walk (suc fuel) (a ∷ b ∷ rest) n =
    let kind = uint16 a b / 512 in
    let size = uint16 a b % 512 in
    let later = walk fuel (drop size rest) (put_tlv kind (take size rest) n) in
    if ltb (length rest) size then malformed else if nat_eq kind 0 then finished n else later

-- `result.ChassisID != "" && result.PortID != "" && result.TTLSeconds > 0`
unfoldable pub is_complete : LldpNeighbor → Bool
is_complete n = not (is_empty n.chassis_id) && (not (is_empty n.port_id) && ltb 0 n.ttl_seconds)

-- What parseLLDPFrame returns, from the outcome of its loop.
unfoldable pub answer : Walk → Option (LldpNeighbor × Bool)
unfolding is_complete
answer (finished n) = some (n, is_complete n)
answer malformed = some (no_neighbor, false)
answer stuck = none

abbrev pub is_lldp : Text → Bool
is_lldp (a ∷ b ∷ s) = nat_eq (uint16 a b) 0x88cc
is_lldp _ = false

-- parseLLDPFrame, with as much fuel as the frame has bytes; `none`: the loop ran out of it.
unfoldable pub parse_lldp_frame : Text → Text → Option (LldpNeighbor × Bool)
unfolding mac_text walk answer
parse_lldp_frame frame local_interface =
    if ltb (length frame) 14 || not (is_lldp (drop 12 frame))
    then some (no_neighbor, false)
    else answer (
        walk (length frame) (drop 14 frame) (record no_neighbor {
          local_interface = local_interface;
          destination_mac = mac_text (take 6 frame);
          source_mac = mac_text (take 6 (drop 6 frame));
        }))

-- applyInterfaceSelection
unfoldable pub apply_interface_selection : LldpNeighbor → InterfaceSelection → LldpNeighbor
apply_interface_selection n s = record n {
  local_interface_index = s.index;
  local_interface_kind = s.kind;
  local_interface_carrier = s.carrier;
  local_interface_state = s.oper_state;
  local_interface_link_up = s.link_valid;
  bond_master = s.bond_name;
  bond_mode = s.bond_mode;
  bond_slaves = s.bond_slaves;
  bond_active_slave = s.bond_active_slave;
  bond_info_source = s.bond_info_source;
  bond_slave_mii_status = s.mii_status;
}

-- htons
unfoldable pub htons : ℕ → ℕ
htons value = value * 256 % 65536 + value / 256
