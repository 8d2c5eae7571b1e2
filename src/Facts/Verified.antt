-- ===== src/Facts/Verified.antt =====
-- topology_agent/kube.go verifyPatchedMetadata: what it lets through.
use mathlib.Core.Path.{subst}
use ngd_ngg_scheduling.Base.{
  ◌≡◌, refl, sym, ap, inl, inr, not, List, [], ◌∷◌, Option, none, some, lookup, Result, ok, err,
  arith, Elem, bind-ok, reject_if-ok,
}
use ngd_ngg_scheduling.Text.{Text, text_Eq}
use ngd_ngg_scheduling.Snapshot.{KubeNode}
use ngd_ngg_scheduling.Facts.Metadata.{
  Fragment, verify_key, verify_patched_metadata, PatchMeeting, PatchError, VerifyError, no_client,
  unread, unpatched, wrong_annotations, wrong_labels, or_wrong, verify_node, patch_node,
}

verify_key-some :
    (key : Text) (got : Option Text) (want : Text)
    → verify_key key got (some want) ≡ ok tt
    → got ≡ some want
unfolding verify_key
verify_key-some key none want h = cc
verify_key-some key (some got) want h = ground (arith, text_Eq.beq_iff got want)

-- What the check of the patch lets through has every key that was to be set.
pub verified_key :
    (actual : List (Text × Text)) (desired : Fragment) (key want : Text)
    → verify_patched_metadata actual desired ≡ ok tt
    → Elem (key, some want) desired
    → lookup key actual ≡ some want
unfolding verify_patched_metadata
verified_key actual [] key want h m = absurd m
verified_key actual ((k, w) ∷ rest) key want h m =
    let (u, checked, later) = bind-ok (verify_key k (lookup k actual) w) _ tt h in
    elim m [
      | inl e ↦
          subst (λ j. lookup j actual ≡ some want) (ap (λ x. x.0) (sym e))
            (verify_key-some k (lookup k actual) want (
              subst (λ x. verify_key k (lookup k actual) x ≡ ok tt) (ap (λ x. x.1) (sym e))
                checked))
      | inr k ↦ verified_key actual rest key want later k
    ]

or_wrong-ok :
    (wrong : VerifyError → PatchError) (r : Result VerifyError (Unit {0}))
    → or_wrong wrong r ≡ ok tt
    → r ≡ ok tt
unfolding or_wrong
or_wrong-ok wrong (ok u) h = refl
or_wrong-ok wrong (err e) h = cc h

-- A patch without an error was checked against the Node that was read again.
pub patch_node-verified :
    (m : PatchMeeting) (labels annotations : Fragment) (node : KubeNode)
    → patch_node m labels annotations ≡ ok tt
    → m.verified ≡ some node
    → verify_patched_metadata node.annotations annotations ≡ ok tt
unfolding patch_node verify_node
patch_node-verified m labels annotations node h e =
    let (c1, h1) = reject_if-ok (not m.has_client) no_client _ tt h in
    let (c2, h2) = reject_if-ok (not m.is_read) unread _ tt h1 in
    let (c3, h3) = reject_if-ok (not m.is_patched) unpatched _ tt h2 in
    let (u, l, h4) =
      bind-ok (or_wrong wrong_labels (verify_patched_metadata node.labels labels))
        (λ v. or_wrong wrong_annotations (verify_patched_metadata node.annotations annotations)) tt
        (subst (λ o. verify_node labels annotations o ≡ ok tt) e h3) in
    or_wrong-ok wrong_annotations (verify_patched_metadata node.annotations annotations) h4
