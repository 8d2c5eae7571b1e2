-- ===== src/StaticSnapshot/Watched.antt =====
-- Which updates of a Node start a synchronization.
use ngd_ngg_scheduling.Base.{◌≡◌, refl, ◌↔◌, true, false, List, [], ◌∷◌, arith}
use ngd_ngg_scheduling.Text.{Text, text_Eq}
use ngd_ngg_scheduling.StaticSnapshot.{WatchedNode, same_map, annotations_changed, update_matters}

same_map_iff : (left right : List (Text × Text)) → (same_map left right ≡ true) ↔ (left ≡ right)
unfolding same_map
same_map_iff [] [] = (λ _. refl, λ _. refl)
same_map_iff [] (y ∷ ys) = (λ h. cc, λ h. cc)
same_map_iff (x ∷ xs) [] = (λ h. cc, λ h. cc)
same_map_iff ((k, v) ∷ rest) ((j, w) ∷ others) =
    ground (arith, text_Eq.beq_iff k j, text_Eq.beq_iff v w, same_map_iff rest others)

-- An update of a Node is passed over exactly when it changes nothing of what the static snapshot is
-- made of: the UID, the labels, the two topology annotations and the allocatable resources.
pub update_matters_iff :
    (old latest : WatchedNode) → (update_matters old latest ≡ false) ↔ (old ≡ latest)
unfolding update_matters annotations_changed
update_matters_iff old latest = ground (
  arith,
  text_Eq.beq_iff old.uid latest.uid,
  text_Eq.beq_iff old.leaf_switch_ids latest.leaf_switch_ids,
  text_Eq.beq_iff old.leaf_links latest.leaf_links,
  same_map_iff old.labels latest.labels,
  same_map_iff old.allocatable latest.allocatable,
)
