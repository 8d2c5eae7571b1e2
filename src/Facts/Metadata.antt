-- ===== src/Facts/Metadata.antt =====
-- topology_agent/pkg/topologyfacts/facts.go BuildNodeMetadata and topology_agent/kube.go: what the
-- agent writes to a Node, and the check of what is read back. The JSON encoders of the leaves and
-- links, SHA-256 and the validation of a label are parameters; the answers of the API server are a
-- record, and the time of the observation is its text.
use ngd_ngg_scheduling.Base.{
  Bool, not, List, [], ◌∷◌, Option, none, some, if◌then◌else◌, ◌==◌, length, lookup, Result, ok,
  err, ◌>>=◌, ◌>>◌, reject_if,
}
use ngd_ngg_scheduling.Text.{Text, text_Eq, lit}
use ngd_ngg_scheduling.Worker.{format_uint}
use ngd_ngg_scheduling.Snapshot.{KubeNode}
use ngd_ngg_scheduling.Facts.{Link, Observation, FactError, normalize, leaf_set_id}

pub record Coding : Type 0 where
  pub leaves_json : List Text → Text
  pub links_json : List Link → Text
  pub digest : Text → Text
  pub is_valid_label : Text → Bool

-- A fragment of a merge patch: `none` is null, which removes a key.
abbrev pub Fragment : Type 0
Fragment = List (Text × Option Text)

pub record NodeMetadata : Type 0 where
  pub observation : Observation
  pub labels : Fragment
  pub annotations : Fragment

-- The label of a Node with one leaf.
unfoldable pub leaf_label : (Text → Bool) → List Text → Option Text
leaf_label valid (leaf ∷ []) = if valid leaf then some leaf else none
leaf_label valid _ = none

unfoldable pub link_annotations : List Link → Fragment
link_annotations [] = []
link_annotations (l ∷ ls) =
    (lit "topology.demo.ngg.io/local-interface", some l.interface)
    ∷ (lit "topology.demo.ngg.io/remote-port", some l.remote_port_id)
    ∷ []

-- BuildNodeMetadata
unfoldable pub build_node_metadata : Coding → Text → Observation → Result FactError NodeMetadata
build_node_metadata C observed_at value = normalize value >>= λ normalized. ok (record {
  observation = normalized;
  labels =
      (
        lit "topology.demo.ngg.io/leaf-set-id",
        some (leaf_set_id C.digest normalized.leaf_switch_ids),
      )
      ∷ (
        lit "topology.demo.ngg.io/leaf-count",
        some (format_uint (length normalized.leaf_switch_ids)),
      )
      ∷ (
        lit "topology.demo.ngg.io/leaf-switch",
        leaf_label C.is_valid_label normalized.leaf_switch_ids,
      )
      ∷ [];
  annotations =
      (lit "topology.demo.ngg.io/leaf-switch-ids", some (C.leaves_json normalized.leaf_switch_ids))
      ∷ (lit "topology.demo.ngg.io/leaf-links", some (C.links_json normalized.links))
      ∷ (lit "topology.demo.ngg.io/source", some normalized.source)
      ∷ (lit "topology.demo.ngg.io/observed-at", some observed_at)
      ∷ link_annotations normalized.links;
})

pub data VerifyError : Type 0 where
  should_be_absent missing mismatch : Text → VerifyError

-- The turn of verifyPatchedMetadata for a key.
unfoldable pub verify_key : Text → Option Text → Option Text → Result VerifyError (Unit {0})
verify_key key none none = ok tt
verify_key key (some got) none = err (should_be_absent key)
verify_key key none (some want) = err (missing key)
verify_key key (some got) (some want) = reject_if (not (got == want)) (mismatch key)

-- verifyPatchedMetadata
unfoldable pub verify_patched_metadata :
    List (Text × Text) → Fragment → Result VerifyError (Unit {0})
verify_patched_metadata actual [] = ok tt
verify_patched_metadata actual ((key, want) ∷ rest) =
    verify_key key (lookup key actual) want >> verify_patched_metadata actual rest

-- What patchNode meets: a client, the first read, the patch, and the Node that is read after it.
pub record PatchMeeting : Type 0 where
  pub has_client : Bool
  pub is_read : Bool
  pub is_patched : Bool
  pub verified : Option KubeNode

pub data PatchError : Type 0 where
  no_client unread unpatched not_reread : PatchError
  wrong_labels wrong_annotations : VerifyError → PatchError

unfoldable pub or_wrong :
    (VerifyError → PatchError) → Result VerifyError (Unit {0}) → Result PatchError (Unit {0})
or_wrong wrong (ok u) = ok u
or_wrong wrong (err why) = err (wrong why)

-- The end of patchNode, with the Node that is read again.
unfoldable pub verify_node : Fragment → Fragment → Option KubeNode → Result PatchError (Unit {0})
verify_node labels annotations none = err not_reread
verify_node labels annotations (some node) =
    or_wrong wrong_labels (verify_patched_metadata node.labels labels)
    >> or_wrong wrong_annotations (verify_patched_metadata node.annotations annotations)

-- patchNode
unfoldable pub patch_node : PatchMeeting → Fragment → Fragment → Result PatchError (Unit {0})
patch_node m labels annotations = do
  reject_if (not m.has_client) no_client
  reject_if (not m.is_read) unread
  reject_if (not m.is_patched) unpatched
  verify_node labels annotations m.verified
