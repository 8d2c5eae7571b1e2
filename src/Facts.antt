-- ===== src/Facts.antt =====
-- topology_agent/pkg/topologyfacts/facts.go: the leaves that the agent has seen on one Node. SHA-256
-- in hexadecimal is a parameter.
pub mod Metadata
pub mod Verified
pub mod Normal
pub mod Recovered
use ngd_ngg_scheduling.Base.{
  ◌≡◌, ap, Bool, true, false, ◌||◌, List, [], ◌∷◌, ◌++◌, map, take, if◌then◌else◌, ◌==◌, insert,
  Result, ok, ◌>>=◌, ◌>>◌, reject_if,
}
use ngd_ngg_scheduling.Text.{Text, text_Eq, text_lt, is_empty, trim_space}
use ngd_ngg_scheduling.Sets.{add_text, sort_strings, unique_sorted}
use ngd_ngg_scheduling.Sets.Canonical.{SameSet, unique_sorted-eq_iff}

pub record Link : Type 0 where
  pub bond_name : Text
  pub bond_mode : Text
  pub interface : Text
  pub leaf_switch_id : Text
  pub chassis_id : Text
  pub chassis_subtype : Text
  pub remote_port_id : Text
  pub active : Bool

pub record Observation : Type 0 where
  pub leaf_switch_ids : List Text
  pub links : List Link
  pub source : Text

pub data FactError : Type 0 where
  incomplete_link no_neighbor : FactError

-- strings.Join with a zero byte
unfoldable pub join : List Text → Text
join [] = []
join (s ∷ []) = s
join (s ∷ t ∷ rest) = s ++ 0 ∷ join (t ∷ rest)

unfoldable pub trim_names : Link → Link
trim_names l = record l {
  interface = trim_space l.interface;
  leaf_switch_id = trim_space l.leaf_switch_id;
}

unfoldable pub identity_of : Link → Text
unfolding join
identity_of l = join (l.interface ∷ l.leaf_switch_id ∷ trim_space l.remote_port_id ∷ [])

-- The loop that fills linksByIdentity: the last link of an identity counts.
unfoldable pub by_identity : List (Text × Link) → List Link → Result FactError (List (Text × Link))
unfolding trim_names identity_of
by_identity found [] = ok found
by_identity found (l ∷ rest) = do
  reject_if (is_empty (trim_names l).interface || is_empty (trim_names l).leaf_switch_id)
      incomplete_link
  by_identity (insert (identity_of (trim_names l)) (trim_names l) found) rest

abbrev pub link_before : Link → Link → Bool
link_before a b =
    if a.interface == b.interface
    then (if a.leaf_switch_id == b.leaf_switch_id
        then text_lt a.remote_port_id b.remote_port_id
        else text_lt a.leaf_switch_id b.leaf_switch_id)
    else text_lt a.interface b.interface

unfoldable pub place_link : Link → List Link → List Link
place_link l [] = l ∷ []
place_link l (m ∷ ms) =
    let rest = place_link l ms in if link_before m l then m ∷ rest else l ∷ m ∷ ms

unfoldable pub sort_links : List Link → List Link
unfolding place_link
sort_links [] = []
sort_links (l ∷ ls) = place_link l (sort_links ls)

-- leafSet
unfoldable pub leaf_set : List Link → List Text
unfolding add_text
leaf_set [] = []
leaf_set (l ∷ ls) = add_text l.leaf_switch_id (leaf_set ls)

abbrev pub no_links : List Link → Bool
no_links [] = true
no_links (l ∷ ls) = false

-- Normalize
unfoldable pub normalize : Observation → Result FactError Observation
unfolding by_identity leaf_set sort_links sort_strings
normalize value = do
  found ← by_identity [] value.links
  let links = map (λ e. e.1) found
  reject_if (no_links links) no_neighbor
  ok (record value { links = sort_links links; leaf_switch_ids = sort_strings (leaf_set links) })

-- LeafSetID: the first six bytes of the hash are twelve digits.
unfoldable pub leaf_set_id : (Text → Text) → List Text → Text
unfolding unique_sorted join
leaf_set_id digest leaves = take 12 (digest (join (unique_sorted leaves)))

-- Two lists that hold the same trimmed, non-empty leaves, in whatever order and repetition, have one
-- identity.
pub leaf_set_id-SameSet :
    (digest : Text → Text) (left right : List Text)
    → SameSet left right
    → leaf_set_id digest left ≡ leaf_set_id digest right
unfolding leaf_set_id
leaf_set_id-SameSet digest left right same =
    ap (λ leaves. take 12 (digest (join leaves))) ((unique_sorted-eq_iff left right).1 same)
