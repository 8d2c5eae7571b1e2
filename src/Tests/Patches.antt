-- ===== src/Tests/Patches.antt =====
-- A Node that the agent patches, with a coding of its annotations that can be decoded: a text ends
-- with 1 and a list with 0.
use ngd_ngg_scheduling.Base.{
  ℕ, zero, suc, ◌≡◌, refl, ap, ◌∙◌, Bool, true, false, not, List, [], ◌∷◌, ◌++◌, ltb, ◌&&◌, map,
  Option, none, some, list_eq, lookup, insert, ok, err,
}
use ngd_ngg_scheduling.Text.{
  Text, lit, text_lt, is_empty, space_at, space_back, trim_front, trim_space,
}
use ngd_ngg_scheduling.Sets.{has_text, add_text, trimmed_set, place, sort_strings, unique_sorted}
use ngd_ngg_scheduling.Worker.{digits, format_uint}
use ngd_ngg_scheduling.Snapshot.{TopologyLink, KubeNode, Decoder, topology_from_node}
use ngd_ngg_scheduling.Facts.{
  Link, Observation, join, trim_names, identity_of, by_identity, place_link, sort_links, leaf_set,
  normalize, leaf_set_id,
}
use ngd_ngg_scheduling.Facts.Metadata.{
  Coding, NodeMetadata, PatchMeeting, leaf_label, link_annotations, build_node_metadata, verify_key,
  verify_patched_metadata, or_wrong, verify_node, patch_node,
}
use ngd_ngg_scheduling.Facts.Recovered.{link_of, IsDecoded, HasFacts, patch_node-HasFacts}

program : Unit {0}
unfolding list_eq lookup insert text_lt space_at space_back trim_front trim_space has_text add_text
    trimmed_set place sort_strings unique_sorted digits format_uint join trim_names identity_of
    by_identity place_link sort_links leaf_set normalize leaf_set_id leaf_label link_annotations
    build_node_metadata verify_key verify_patched_metadata or_wrong verify_node patch_node
program = tt

abbrev write_text : Text → Text → Text
write_text [] rest = 1 ∷ rest
write_text (c ∷ t) rest = suc (suc c) ∷ write_text t rest

abbrev write_texts : List Text → Text
write_texts [] = 0 ∷ []
write_texts (t ∷ ts) = write_text t (write_texts ts)

abbrev new_text : Option (List Text) → Option (List Text)
new_text none = none
new_text (some ts) = some ([] ∷ ts)

abbrev longer : ℕ → Option (List Text) → Option (List Text)
longer c (some (t ∷ ts)) = some ((c ∷ t) ∷ ts)
longer c _ = none

abbrev read_texts : Text → Option (List Text)
read_texts [] = none
read_texts (zero ∷ s) = some []
read_texts (suc zero ∷ s) = new_text (read_texts s)
read_texts (suc (suc c) ∷ s) = longer c (read_texts s)

read_texts-write_text :
    (t : Text) (ts : List Text) (s : Text)
    → read_texts s ≡ some ts
    → read_texts (write_text t s) ≡ some (t ∷ ts)
read_texts-write_text [] ts s h = ap new_text h
read_texts-write_text (c ∷ t) ts s h = ap (longer c) (read_texts-write_text t ts s h)

read_texts-write_texts : (ts : List Text) → read_texts (write_texts ts) ≡ some ts
read_texts-write_texts [] = refl
read_texts-write_texts (t ∷ ts) =
    read_texts-write_text t ts (write_texts ts) (read_texts-write_texts ts)

write_text-nonempty : (t s : Text) → is_empty (write_text t s) ≡ false
write_text-nonempty [] s = refl
write_text-nonempty (c ∷ t) s = refl

write_texts-nonempty : (ts : List Text) → is_empty (write_texts ts) ≡ false
write_texts-nonempty [] = refl
write_texts-nonempty (t ∷ ts) = write_text-nonempty t (write_texts ts)

abbrev flag : Bool → Text
flag true = 9 ∷ []
flag false = []

abbrev link_texts : List Link → List Text
link_texts [] = []
link_texts (l ∷ ls) =
    l.bond_name
    ∷ l.bond_mode
    ∷ l.interface
    ∷ l.leaf_switch_id
    ∷ l.remote_port_id
    ∷ flag l.active
    ∷ link_texts ls

abbrev text_links : List Text → List TopologyLink
text_links (a ∷ b ∷ c ∷ d ∷ e ∷ f ∷ rest) =
    record {
      bond_name = a;
      bond_mode = b;
      interface = c;
      leaf_switch_id = d;
      remote_port_id = e;
      active = not (is_empty f);
    }
    ∷ text_links rest
text_links _ = []

flag_read : (b : Bool) → not (is_empty (flag b)) ≡ b
flag_read true = refl
flag_read false = refl

text_links-link_texts : (ls : List Link) → text_links (link_texts ls) ≡ map link_of ls
text_links-link_texts [] = refl
text_links-link_texts (l ∷ ls) = rw (flag_read l.active, text_links-link_texts ls) refl

abbrev read_links : Option (List Text) → Option (List TopologyLink)
read_links none = none
read_links (some ts) = some (text_links ts)

abbrev coding : Coding
coding = record {
  leaves_json = write_texts;
  links_json = λ ls. write_texts (link_texts ls);
  digest = λ s. s;
  is_valid_label = λ s. true;
}

abbrev decoder : Decoder
decoder = record { leaves = read_texts; links = λ s. read_links (read_texts s) }

-- The texts of ASCII characters.
abbrev is_ascii : Text → Bool
is_ascii [] = true
is_ascii (b ∷ s) = ltb b 128 && is_ascii s

coding-IsDecoded : IsDecoded is_ascii coding decoder
coding-IsDecoded = (
  λ ts valid. (write_texts-nonempty ts, read_texts-write_texts ts),
  λ ls valid. (
    write_texts-nonempty (link_texts ls),
    ap read_links (read_texts-write_texts (link_texts ls)) ∙ ap some (text_links-link_texts ls),
  ),
)

abbrev link : Text → Text → Link
link interface leaf = record {
  bond_name = [];
  bond_mode = [];
  interface = interface;
  leaf_switch_id = leaf;
  chassis_id = [];
  chassis_subtype = [];
  remote_port_id = lit "p1";
  active = true;
}

-- Two links with white space around their names.
abbrev seen : Observation
seen = record {
  leaf_switch_ids = [];
  links = link (lit "eth1") (lit " l2 ") ∷ link (lit " eth0") (lit "l1") ∷ [];
  source = lit "lldp";
}

abbrev built : NodeMetadata
built = elim (build_node_metadata coding (lit "now") seen) [
  | ok md ↦ md
  | err why ↦ record { observation = seen; labels = []; annotations = [] }
]

abbrev node : KubeNode
node = record {
  name = lit "n1";
  uid = lit "u1";
  labels =
      (lit "topology.demo.ngg.io/leaf-set-id", lit "l1" ++ 0 ∷ lit "l2")
      ∷ (lit "topology.demo.ngg.io/leaf-count", lit "2")
      ∷ [];
  annotations =
      (lit "topology.demo.ngg.io/leaf-switch-ids", write_texts (lit "l1" ∷ lit "l2" ∷ []))
      ∷ (
        lit "topology.demo.ngg.io/leaf-links",
        write_texts (link_texts (link (lit "eth0") (lit "l1") ∷ link (lit "eth1") (lit "l2") ∷ [])),
      )
      ∷ (lit "topology.demo.ngg.io/source", lit "lldp")
      ∷ (lit "topology.demo.ngg.io/observed-at", lit "now")
      ∷ (lit "topology.demo.ngg.io/local-interface", lit "eth0")
      ∷ (lit "topology.demo.ngg.io/remote-port", lit "p1")
      ∷ [];
  conditions = [];
  addresses = [];
}

abbrev meeting : PatchMeeting
meeting = record { has_client = true; is_read = true; is_patched = true; verified = some node }

two_leaves : built.observation.leaf_switch_ids ≡ lit "l1" ∷ lit "l2" ∷ []
unfolding program
two_leaves = refl

patch_node-HasFacts_example :
    HasFacts built.observation.leaf_switch_ids
      (map link_of built.observation.links)
      (topology_from_node decoder node)
unfolding program
patch_node-HasFacts_example =
    patch_node-HasFacts is_ascii coding decoder (lit "now") seen built meeting node coding-IsDecoded
      refl (refl, (refl, tt)) (plain, (plain, tt)) refl refl refl
  where
    plain :
        (true ≡ true)
        × ((true ≡ true)
            × ((true ≡ true)
                × ((true ≡ true) × ((true ≡ true) × ((true ≡ true) × ((true ≡ true) × Unit {0}))))))
    plain = (refl, (refl, (refl, (refl, (refl, (refl, (refl, tt)))))))
