-- ===== src/Facts/Normal.antt =====
-- topology_agent/pkg/topologyfacts/facts.go: the links and leaves of a normalized observation.
use mathlib.Core.Path.{subst}
use ngd_ngg_scheduling.Base.{
  ◌≡◌, ◌≢◌, refl, sym, inl, inr, false, ◌||◌, List, [], ◌∷◌, map, ◌==◌, insert, ok, arith, All,
  Elem, Bool-cases, bind-ok, reject_if-ok, ok-injective,
}
use ngd_ngg_scheduling.Text.{Text, text_Eq, is_empty, trim_space}
use ngd_ngg_scheduling.Text.Trimmed.{trim_space-trim_space}
use ngd_ngg_scheduling.Sets.{add_text, sort_strings}
use ngd_ngg_scheduling.Sets.Sorting.{
  IsIncreasing, IsSetList, Elem-sort_strings, sort_strings-IsIncreasing,
}
use ngd_ngg_scheduling.Sets.Canonical.{add_text-IsSetList, Elem-add_text}
use ngd_ngg_scheduling.Facts.{
  Link, Observation, incomplete_link, trim_names, identity_of, by_identity, link_before, place_link,
  sort_links, leaf_set, no_links, normalize,
}

-- The text is not empty and has no white space around it.
abbrev pub IsTrimmed : Text → Type 0
IsTrimmed s = (is_empty s ≡ false) × (trim_space s ≡ s)

abbrev pub IsComplete : Link → Type 0
IsComplete l = IsTrimmed l.interface × IsTrimmed l.leaf_switch_id

abbrev AreComplete : List (Text × Link) → Type 0
AreComplete found = All (λ e. IsComplete e.1) found

insert-AreComplete :
    (key : Text) (l : Link) (found : List (Text × Link))
    → IsComplete l
    → AreComplete found
    → AreComplete (insert key l found)
unfolding insert
insert-AreComplete key l [] c h = (c, tt)
insert-AreComplete key l ((k, m) ∷ found) c h = elim (Bool-cases (key == k)) [
  | inl e ↦ rw e (c, h.1)
  | inr e ↦ rw e (h.0, insert-AreComplete key l found c h.1)
]

trim_names-IsComplete :
    (l : Link)
    → (is_empty (trim_names l).interface || is_empty (trim_names l).leaf_switch_id) ≡ false
    → IsComplete (trim_names l)
unfolding trim_names
trim_names-IsComplete l h = (
  (ground arith, trim_space-trim_space l.interface),
  (ground arith, trim_space-trim_space l.leaf_switch_id),
)

by_identity-AreComplete :
    (found : List (Text × Link)) (ls : List Link) (done : List (Text × Link))
    → AreComplete found
    → by_identity found ls ≡ ok done
    → AreComplete done
unfolding by_identity
by_identity-AreComplete found [] done c h = subst AreComplete (ok-injective found done h) c
by_identity-AreComplete found (l ∷ rest) done c h =
    let (full, later) =
      reject_if-ok _ incomplete_link
        (by_identity (insert (identity_of (trim_names l)) (trim_names l) found) rest) done h in
    by_identity-AreComplete (insert (identity_of (trim_names l)) (trim_names l) found) rest done
      (insert-AreComplete (identity_of (trim_names l)) (trim_names l) found
        (trim_names-IsComplete l full) c)
      later

All-seconds :
    (P : Link → Type 0) (found : List (Text × Link))
    → All (λ e. P e.1) found
    → All P (map (λ e. e.1) found)
All-seconds P [] h = tt
All-seconds P (e ∷ found) h = (h.0, All-seconds P found h.1)

place_link-All :
    (P : Link → Type 0) (l : Link) (ls : List Link) → P l → All P ls → All P (place_link l ls)
unfolding place_link
place_link-All P l [] p ps = (p, tt)
place_link-All P l (m ∷ ms) p ps = elim (Bool-cases (link_before m l)) [
  | inl t ↦ rw t (ps.0, place_link-All P l ms p ps.1)
  | inr f ↦ rw f (p, ps)
]

sort_links-All : (P : Link → Type 0) (ls : List Link) → All P ls → All P (sort_links ls)
unfolding sort_links
sort_links-All P [] ps = tt
sort_links-All P (l ∷ ls) ps = place_link-All P l (sort_links ls) ps.0 (sort_links-All P ls ps.1)

leaf_set-IsSetList : (ls : List Link) → IsSetList (leaf_set ls)
unfolding leaf_set
leaf_set-IsSetList [] = tt
leaf_set-IsSetList (l ∷ ls) =
    add_text-IsSetList l.leaf_switch_id (leaf_set ls) (leaf_set-IsSetList ls)

-- What holds of the leaf of each link holds of each leaf of their set.
leaf_set-Elem :
    (P : Text → Type 0) (ls : List Link) (v : Text)
    → All (λ l. P l.leaf_switch_id) ls
    → Elem v (leaf_set ls)
    → P v
unfolding leaf_set
leaf_set-Elem P [] v h m = absurd m
leaf_set-Elem P (l ∷ ls) v h m = elim ((Elem-add_text v l.leaf_switch_id (leaf_set ls)).0 m) [
  | inl e ↦ subst P (sym e) h.0
  | inr k ↦ leaf_set-Elem P ls v h.1 k
]

-- The leaf of each link is in their set.
leaf_set-All : (ls : List Link) → All (λ l. Elem l.leaf_switch_id (leaf_set ls)) ls
unfolding leaf_set
leaf_set-All [] = tt
leaf_set-All (l ∷ ls) = (
  (Elem-add_text l.leaf_switch_id l.leaf_switch_id (leaf_set ls)).1 (inl refl),
  wider ls (leaf_set-All ls),
)
  where
    wider :
        (ms : List Link)
        → All (λ m. Elem m.leaf_switch_id (leaf_set ls)) ms
        → All (λ m. Elem m.leaf_switch_id (add_text l.leaf_switch_id (leaf_set ls))) ms
    wider [] h = tt
    wider (m ∷ ms) h =
        ((Elem-add_text m.leaf_switch_id l.leaf_switch_id (leaf_set ls)).1 (inr h.0), wider ms h.1)

some_leaves : (ls : List Link) → no_links ls ≡ false → sort_strings (leaf_set ls) ≢ []
some_leaves [] n e = cc n
some_leaves (l ∷ ls) n e =
    subst (Elem l.leaf_switch_id) e
      ((Elem-sort_strings l.leaf_switch_id (leaf_set (l ∷ ls))).1 (leaf_set-All (l ∷ ls)).0)

-- The links of the observation are complete, and its leaves are the increasing list of theirs.
abbrev pub IsNormal : Observation → Type 0
IsNormal o =
    All IsComplete o.links
    × All (λ l. Elem l.leaf_switch_id o.leaf_switch_ids) o.links
    × IsIncreasing o.leaf_switch_ids
    × ((v : Text) → Elem v o.leaf_switch_ids → IsTrimmed v)
    × (o.leaf_switch_ids ≢ [])

sorted_leaves :
    (source : Text) (links : List Link)
    → no_links links ≡ false
    → All IsComplete links
    → IsNormal (record {
      leaf_switch_ids = sort_strings (leaf_set links);
      links = sort_links links;
      source = source;
    })
sorted_leaves source links n c = (
  sort_links-All IsComplete links c,
  sort_links-All (λ l. Elem l.leaf_switch_id (sort_strings (leaf_set links))) links
      (held links (leaf_set-All links)),
  sort_strings-IsIncreasing (leaf_set links) (leaf_set-IsSetList links),
  λ v m.
      leaf_set-Elem IsTrimmed links v (leaves links c) ((Elem-sort_strings v (leaf_set links)).0 m),
  some_leaves links n,
)
  where
    held :
        (ms : List Link)
        → All (λ m. Elem m.leaf_switch_id (leaf_set links)) ms
        → All (λ m. Elem m.leaf_switch_id (sort_strings (leaf_set links))) ms
    held [] h = tt
    held (m ∷ ms) h = ((Elem-sort_strings m.leaf_switch_id (leaf_set links)).1 h.0, held ms h.1)

    leaves : (ms : List Link) → All IsComplete ms → All (λ l. IsTrimmed l.leaf_switch_id) ms
    leaves [] h = tt
    leaves (m ∷ ms) h = (h.0.1, leaves ms h.1)

pub normalize-IsNormal : (value done : Observation) → normalize value ≡ ok done → IsNormal done
unfolding normalize
normalize-IsNormal value done h =
    let (found, e, h1) = bind-ok (by_identity [] value.links) _ done h in
    let (some_links, h2) = reject_if-ok (no_links (map (λ k. k.1) found)) _ _ done h1 in
    subst IsNormal (ok-injective _ done h2) (
      sorted_leaves value.source (map (λ k. k.1) found) some_links
        (All-seconds IsComplete found (by_identity-AreComplete [] value.links found tt e)))
