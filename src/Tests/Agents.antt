-- ===== src/Tests/Agents.antt =====
-- Runs of the topology agent: frames that it parses, interfaces that it selects, links it reports.
use ngd_ngg_scheduling.Base.{
  ◌≡◌, refl, ◌≢◌, ◌↔◌, inl, inr, Bool, true, false, ◌&&◌, List, [], ◌∷◌, ◌++◌, Option, none, some,
  arith, lookup, insert, contains, list_eq, All, pos,
}
use ngd_ngg_scheduling.Text.{
  Text, Folding, text_Eq, lit, text_lt, has_prefix, space_at, space_back, trim_front, trim_space,
}
use ngd_ngg_scheduling.Text.Print.{
  hex_digit, byte_hex, hex, byte_decimal, mac_text, dotted, groups, leading_zeros, zero_run,
  group_hex, colons, ipv6_text, ip_text,
}
use ngd_ngg_scheduling.Text.Split.{fields_from, fields, split, cut, contains_text}
use ngd_ngg_scheduling.Sets.{place, sort_strings}
use ngd_ngg_scheduling.Facts.{Link}
use ngd_ngg_scheduling.Bond.State.{
  Files, normalize_mode, normalize_proc_mode, proc_field, proc_lines, parse_proc_bond, read_file,
  is_physical_wired, classify_interface, link_state, link_up_values, sysfs_bond, sysfs_bonds,
  complete_bond, merge_bond, proc_bonds, discover_bonds,
}
use ngd_ngg_scheduling.Bond.{
  Selections, place_state, sorted_bond_states, bond_for_slave, known_slaves, runtime_link_state,
  link_of, bond_master_selection, select_masters, direct_selection, slave_selection,
  explicit_selection, select_explicit, is_standalone, select_standalone, select_interfaces_at,
}
use ngd_ngg_scheduling.Bond.Selected.{IsAutomatic, bonds_in, select_interfaces_at-IsAutomatic}
use ngd_ngg_scheduling.Lldp.{
  LldpNeighbor, no_neighbor, subtype_name, decode_network_address, decode_identifier,
  decode_management_address, set_names, capabilities, decode_capabilities, ttl_of, append_address,
  put_tlv, walk, is_complete, answer, parse_lldp_frame, htons,
}
use ngd_ngg_scheduling.Lldp.Tlvs.{Tlv, tlv_bytes, payload_of, put_all}
use ngd_ngg_scheduling.Lldp.Frames.{
  frame_of, sender, parse_lldp_frame_ends, parse_lldp_frame-frame_of, parse_lldp_frame_truncated,
}
use ngd_ngg_scheduling.Links.{
  drop_separators, before_dot, leaf_at, bond_of, chassis_key, leaf_chassis_identity,
  leaf_identities, distinct_leaf_count, host_name, same_host_name, name_leaf, check_neighbor,
  leaf_by_chassis, chassis_by_leaf_name, links_of, build_leaf_links,
}
use ngd_ngg_scheduling.Links.Chassis.{chassis_of, build_leaf_links_names}

program : Unit {0}
unfolding text_lt has_prefix space_at space_back trim_front trim_space hex_digit byte_hex hex
    byte_decimal mac_text dotted groups leading_zeros zero_run group_hex colons ipv6_text ip_text
    fields_from fields split cut contains_text place sort_strings lookup insert contains list_eq
    normalize_mode normalize_proc_mode proc_field proc_lines parse_proc_bond read_file
    is_physical_wired classify_interface link_state link_up_values sysfs_bond sysfs_bonds
    complete_bond merge_bond proc_bonds discover_bonds place_state sorted_bond_states bond_for_slave
    known_slaves runtime_link_state link_of bond_master_selection select_masters direct_selection
    slave_selection explicit_selection select_explicit is_standalone select_standalone
    select_interfaces_at subtype_name decode_network_address decode_identifier
    decode_management_address set_names capabilities decode_capabilities ttl_of append_address
    put_tlv walk is_complete answer parse_lldp_frame htons tlv_bytes payload_of put_all
    drop_separators before_dot leaf_at bond_of chassis_key leaf_chassis_identity leaf_identities
    distinct_leaf_count host_name same_host_name name_leaf check_neighbor leaf_by_chassis
    chassis_by_leaf_name links_of build_leaf_links
program = tt

abbrev leaf_mac : Text
leaf_mac = 0x00 ∷ 0x1b ∷ 0x21 ∷ 0x0a ∷ 0xff ∷ 0x01 ∷ []

abbrev multicast : Text
multicast = 0x01 ∷ 0x80 ∷ 0xc2 ∷ 0x00 ∷ 0x00 ∷ 0x0e ∷ []

-- Chassis, port, time to live, name, capabilities and an address.
abbrev announced : List Tlv
announced =
    (1, 4 ∷ leaf_mac)
    ∷ (2, 5 ∷ lit "Eth1/7")
    ∷ (3, 0 ∷ 120 ∷ [])
    ∷ (5, lit " leaf-a ")
    ∷ (7, 0 ∷ 0x14 ∷ 0 ∷ 0x10 ∷ [])
    ∷ (8, 5 ∷ 1 ∷ 10 ∷ 0 ∷ 0 ∷ 12 ∷ [])
    ∷ []

abbrev leaf_a : LldpNeighbor
leaf_a = record no_neighbor {
  local_interface = lit "ens1";
  source_mac = lit "00:1b:21:0a:ff:01";
  destination_mac = lit "01:80:c2:00:00:0e";
  chassis_id_subtype = lit "mac-address";
  chassis_id = lit "00:1b:21:0a:ff:01";
  port_id_subtype = lit "interface-name";
  port_id = lit "Eth1/7";
  ttl_seconds = 120;
  system_name = lit "leaf-a";
  supported_capabilities = lit "bridge" ∷ lit "router" ∷ [];
  enabled_capabilities = lit "router" ∷ [];
  management_addresses = lit "10.0.0.12" ∷ [];
}

put_announced : put_all announced (sender (lit "ens1") multicast leaf_mac) ≡ leaf_a
unfolding program
put_announced = refl

ipv6_printed :
    ip_text (0x20 ∷ 1 ∷ 0x0d ∷ 0xb8 ∷ 0 ∷ 0 ∷ 0 ∷ 0 ∷ 0 ∷ 0 ∷ 0 ∷ 0 ∷ 0 ∷ 0 ∷ 0 ∷ 0x1f ∷ [])
    ≡ lit "2001:db8::1f"
unfolding program
ipv6_printed = refl

-- An End TLV with padding behind it.
parse_lldp_frame-frame_of_example :
    parse_lldp_frame
      (frame_of multicast leaf_mac (payload_of announced ++ (0 ∷ 0 ∷ 7 ∷ 7 ∷ 7 ∷ [])))
      (lit "ens1")
    ≡ some (
      put_all announced (sender (lit "ens1") multicast leaf_mac),
      is_complete (put_all announced (sender (lit "ens1") multicast leaf_mac)),
    )
unfolding program
parse_lldp_frame-frame_of_example =
    parse_lldp_frame-frame_of multicast leaf_mac (lit "ens1") announced (0 ∷ 0 ∷ 7 ∷ 7 ∷ 7 ∷ [])
      refl refl
      (
        (omega arith, omega arith, omega arith),
        (
          (omega arith, omega arith, omega arith),
          (
            (omega arith, omega arith, omega arith),
            (
              (omega arith, omega arith, omega arith),
              (
                (omega arith, omega arith, omega arith),
                ((omega arith, omega arith, omega arith), tt),
              ),
            ),
          ),
        ),
      )
      refl

-- A TLV of type 5 that promises 9 bytes and has 2.
parse_lldp_frame_truncated_example :
    parse_lldp_frame
      (frame_of multicast leaf_mac
        (payload_of ((3, 0 ∷ 120 ∷ []) ∷ []) ++ (0x0a ∷ 9 ∷ 65 ∷ 66 ∷ [])))
      (lit "ens1")
    ≡ some (no_neighbor, false)
unfolding program
parse_lldp_frame_truncated_example =
    parse_lldp_frame_truncated multicast leaf_mac (lit "ens1") ((3, 0 ∷ 120 ∷ []) ∷ [])
      (0x0a ∷ 9 ∷ 65 ∷ 66 ∷ []) refl refl ((omega arith, omega arith, omega arith), tt) refl

parse_lldp_frame_ends_example :
    parse_lldp_frame (frame_of multicast leaf_mac (payload_of announced)) (lit "ens1") ≢ none
parse_lldp_frame_ends_example =
    parse_lldp_frame_ends (frame_of multicast leaf_mac (payload_of announced)) (lit "ens1")

abbrev plain : Folding
plain = record { to_lower = λ s. s; equal_fold = text_Eq.beq }

-- A host with a bond of two wired slaves, a wired interface of its own and a virtual one.
abbrev host_attribute : Text → Text → Option Text
host_attribute name path = lookup (name ++ path) (
    (lit "bond0bonding/mode", lit "active-backup 1")
    ∷ (lit "bond0bonding/slaves", lit "ens1 ens2")
    ∷ (lit "bond0bonding/active_slave", lit "ens1")
    ∷ (lit "bond0carrier", lit "1")
    ∷ (lit "ens1type", lit "1")
    ∷ (lit "ens1carrier", lit "1")
    ∷ (lit "ens3type", lit "1")
    ∷ (lit "ens3operstate", lit "up")
    ∷ (lit "veth0carrier", lit "1")
    ∷ [])

abbrev host : Files
host = record {
  folding = plain;
  entries = some (lit "bond0" ∷ lit "ens1" ∷ lit "ens3" ∷ lit "veth0" ∷ []);
  has_entry = λ name. true;
  attribute = host_attribute;
  has_attribute =
      λ name path. contains name (lit "ens1" ∷ lit "ens3" ∷ []) && text_Eq.beq path (lit "device");
  proc_entries = none;
  proc_file = λ name. none;
}

abbrev chosen : Selections
chosen =
    (
      lit "bond0",
      record {
        name = lit "bond0";
        index = pos 0;
        kind = lit "bond-master";
        bond_name = lit "bond0";
        bond_mode = lit "active-backup";
        bond_slaves = lit "ens1" ∷ lit "ens2" ∷ [];
        bond_active_slave = lit "ens1";
        bond_info_source = lit "sysfs";
        active = false;
        administrative_up = true;
        link_valid = true;
        physical_wired = false;
        carrier = lit "1";
        oper_state = [];
        mii_status = [];
      },
    )
    ∷ (
      lit "ens3",
      record {
        name = lit "ens3";
        index = pos 0;
        kind = lit "physical";
        bond_name = [];
        bond_mode = lit "direct";
        bond_slaves = [];
        bond_active_slave = [];
        bond_info_source = [];
        active = true;
        administrative_up = true;
        link_valid = true;
        physical_wired = true;
        carrier = [];
        oper_state = lit "up";
        mii_status = [];
      },
    )
    ∷ []

select_interfaces_at-IsAutomatic_example :
    (chosen ≢ []) × All (IsAutomatic host [] false (bonds_in host [] false host.entries)) chosen
unfolding program
select_interfaces_at-IsAutomatic_example =
    select_interfaces_at-IsAutomatic host [] false chosen refl

-- Two ports of one switch, of which one announces no name, and a port of another.
abbrev neighbors : List LldpNeighbor
neighbors =
    record leaf_a { local_interface = lit "bond0" }
    ∷ record leaf_a { local_interface = lit "bond0"; port_id = lit "Eth1/8"; system_name = [] }
    ∷ record leaf_a {
      local_interface = lit "ens3";
      chassis_id = lit "00:1b:21:0a:ff:02";
      system_name = lit "leaf-b";
    }
    ∷ []

abbrev link : Text → Text → Text → Text → Text → Text → Bool → Link
link bond_name bond_mode interface leaf chassis port active = record {
  bond_name = bond_name;
  bond_mode = bond_mode;
  interface = interface;
  leaf_switch_id = leaf;
  chassis_id = chassis;
  chassis_subtype = lit "mac-address";
  remote_port_id = port;
  active = active;
}

abbrev first_link : Link
first_link =
    link (lit "bond0") (lit "active-backup") (lit "bond0") (lit "leaf-a") (lit "00:1b:21:0a:ff:01")
      (lit "Eth1/7") false

abbrev second_link : Link
second_link =
    link (lit "bond0") (lit "active-backup") (lit "bond0") (lit "leaf-a") (lit "00:1b:21:0a:ff:01")
      (lit "Eth1/8") false

abbrev reported : List Link
reported =
    first_link
    ∷ second_link
    ∷ link [] (lit "direct") (lit "ens3") (lit "leaf-b") (lit "00:1b:21:0a:ff:02") (lit "Eth1/7")
        true
    ∷ []

build_leaf_links_names_example :
    (chassis_of plain first_link ≡ chassis_of plain second_link) ↔ (lit "leaf-a" ≡ lit "leaf-a")
unfolding program
build_leaf_links_names_example =
    build_leaf_links_names plain chosen neighbors reported first_link second_link refl (inl refl)
      (inr (inl refl))
