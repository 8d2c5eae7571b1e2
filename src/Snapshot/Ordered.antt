-- ===== src/Snapshot/Ordered.antt =====
-- prc/pkg/controller/snapshot.go: the snapshots do not depend on the order in which the API server
-- lists the Nodes, whose UIDs are all different.
use mathlib.Core.Path.{subst}
use mathlib.Core.List.{Permᴰ}
use ngd_ngg_scheduling.Base.{
  ◌≡◌, ◌≢◌, refl, sym, ap, ◌∙◌, List, [], ◌∷◌, map, Option, none, some, Result, ok, err, All,
  bind-ok, ok-injective,
}
use ngd_ngg_scheduling.Text.{Text, text_Eq}
use ngd_ngg_scheduling.Text.Order.{text_lt_asymm}
use ngd_ngg_scheduling.Sets.Insertion.{Pairwise, sort_by-Permᴰ}
use ngd_ngg_scheduling.Response.{SchedulerNodeState}
use ngd_ngg_scheduling.Snapshot.{NodeTopology, Decoder, Fault, topology_from_node}
use ngd_ngg_scheduling.Snapshot.Before.{
  ApartStatic, sort_static-Permᴰ, text_lt_connected, text_lt_between,
}
use ngd_ngg_scheduling.Snapshot.Built.{
  ListedNode, StaticNode, StaticContent, BuildError, static_node, with_found, found_topology,
  read_node, read_nodes, build_static_snapshot, Quantities, Pod, Requests, sum_pods, node_state,
  state_before, build_scheduler_state,
}

-- Two listed Nodes with different UIDs.
abbrev pub HasOtherUid : ListedNode → ListedNode → Type 0
HasOtherUid a b = a.node.uid ≢ b.node.uid

same_order : {A : Type 0} (xs : List A) → Permᴰ xs xs
same_order [] = Permᴰ.nil
same_order (x ∷ xs) = Permᴰ.cons refl (same_order xs)

with_found-Permᴰ :
    (o : Option StaticNode) {xs ys : List StaticNode}
    → Permᴰ xs ys
    → Permᴰ (with_found o xs) (with_found o ys)
unfolding with_found
with_found-Permᴰ none p = p
with_found-Permᴰ (some n) p = Permᴰ.cons refl p

with_found-swap :
    (o p : Option StaticNode) (xs : List StaticNode)
    → Permᴰ (with_found o (with_found p xs)) (with_found p (with_found o xs))
unfolding with_found
with_found-swap none p xs = same_order (with_found p xs)
with_found-swap (some n) none xs = same_order (n ∷ xs)
with_found-swap (some n) (some m) xs = Permᴰ.swap refl refl

module _ (D : Decoder) where
  -- The Nodes of another order of the list, where all of them are read.
  abbrev ReadAs : List StaticNode → List ListedNode → Type 0
  ReadAs xs nodes = (ys : List StaticNode) × (read_nodes D nodes ≡ ok ys) × Permᴰ xs ys

  read_none : ok [] ≡ read_nodes D []
  unfolding read_nodes
  read_none = refl

  read_nodes-cons :
      (l : ListedNode) (rest : List ListedNode) (o : Option StaticNode) (xs : List StaticNode)
      → read_node D l ≡ ok o
      → read_nodes D rest ≡ ok xs
      → read_nodes D (l ∷ rest) ≡ ok (with_found o xs)
  unfolding read_nodes
  read_nodes-cons l rest o xs e f = rw (e, f) refl

  read_nodes-parts :
      (l : ListedNode) (rest : List ListedNode) (zs : List StaticNode)
      → read_nodes D (l ∷ rest) ≡ ok zs
      → (o : Option StaticNode) × (xs : List StaticNode) × (read_node D l ≡ ok o)
        × (read_nodes D rest ≡ ok xs)
        × (with_found o xs ≡ zs)
  unfolding read_nodes
  read_nodes-parts l rest zs h =
      let (o, e, h1) = bind-ok (read_node D l) _ zs h in
      let (xs, f, h2) = bind-ok (read_nodes D rest) _ zs h1 in
      (o, xs, e, f, ok-injective (with_found o xs) zs h2)

  read_nodes-Permᴰ :
      {ns ms : List ListedNode} (zs : List StaticNode)
      → Permᴰ ns ms
      → read_nodes D ns ≡ ok zs
      → ReadAs zs ms
  read_nodes-Permᴰ zs Permᴰ.nil h = (zs, h, same_order zs)
  read_nodes-Permᴰ zs (Permᴰ.cons {a = a} {b = b} {l₁ = l₁} {l₂ = l₂} e d) h =
      let (o, xs, f, g, k) = read_nodes-parts a l₁ zs h in
      let (ys, i, p) = read_nodes-Permᴰ xs d g in
      (
        with_found o ys,
        read_nodes-cons b l₂ o ys (subst (λ x. read_node D x ≡ ok o) e f) i,
        subst (λ t. Permᴰ t (with_found o ys)) k (with_found-Permᴰ o p),
      )
  read_nodes-Permᴰ zs (Permᴰ.swap {a = a} {b = b} {a' = a'} {b' = b'} {l = l} e f) h =
      let (o, xs, g, r, k) = read_nodes-parts a (b ∷ l) zs h in
      let (p, ys, i, j, q) = read_nodes-parts b l xs r in
      (
        with_found p (with_found o ys),
        read_nodes-cons a' (b' ∷ l) p (with_found o ys) (subst (λ x. read_node D x ≡ ok p) f i)
            (read_nodes-cons b' l o ys (subst (λ x. read_node D x ≡ ok o) e g) j),
        subst (λ t. Permᴰ t (with_found p (with_found o ys))) (ap (with_found o) q ∙ k)
            (with_found-swap o p ys),
      )
  read_nodes-Permᴰ zs (Permᴰ.trans d k) h =
      let (ys, e, p) = read_nodes-Permᴰ zs d h in
      let (ws, f, q) = read_nodes-Permᴰ ys k e in (ws, f, Permᴰ.trans p q)

  read_node_uid :
      (l : ListedNode) (x : Result Fault (Option NodeTopology)) (n : StaticNode)
      → found_topology l x ≡ ok (some n)
      → n.node_uid ≡ l.node.uid
  unfolding found_topology static_node
  read_node_uid l (err why) n h = cc
  read_node_uid l (ok none) n h = cc
  read_node_uid l (ok (some t)) n h = ap uid_or (sym h)
    where
      uid_or : Result BuildError (Option StaticNode) → Text
      uid_or (ok (some m)) = m.node_uid
      uid_or _ = l.node.uid

  with_found-All :
      (P : Text → Type 0) (l : ListedNode) (o : Option StaticNode) (xs : List StaticNode)
      → read_node D l ≡ ok o
      → P l.node.uid
      → All (λ y. P y.node_uid) xs
      → All (λ y. P y.node_uid) (with_found o xs)
  unfolding with_found read_node
  with_found-All P l none xs e p h = h
  with_found-All P l (some n) xs e p h =
      (subst P (sym (read_node_uid l (topology_from_node D l.node) n e)) p, h)

  -- What holds of the UID of each listed Node holds of that of each Node that is read.
  read_nodes-All :
      (P : Text → Type 0) (ns : List ListedNode) (xs : List StaticNode)
      → All (λ l. P l.node.uid) ns
      → read_nodes D ns ≡ ok xs
      → All (λ y. P y.node_uid) xs
  read_nodes-All P [] xs h e =
      subst (All (λ y. P y.node_uid)) (ok-injective [] xs (read_none ∙ e)) tt
  read_nodes-All P (l ∷ ns) xs h e =
      let (o, ys, f, g, k) = read_nodes-parts l ns xs e in
      subst (All (λ y. P y.node_uid)) k
        (with_found-All P l o ys f h.0 (read_nodes-All P ns ys h.1 g))

  with_found-Pairwise :
      (l : ListedNode) (o : Option StaticNode) (xs : List StaticNode)
      → read_node D l ≡ ok o
      → All (λ y. l.node.uid ≢ y.node_uid) xs
      → Pairwise ApartStatic xs
      → Pairwise ApartStatic (with_found o xs)
  unfolding with_found read_node
  with_found-Pairwise l none xs e h p = p
  with_found-Pairwise l (some n) xs e h p = (
    subst (λ u. All (λ y. u ≢ y.node_uid) xs)
        (sym (read_node_uid l (topology_from_node D l.node) n e)) h,
    p,
  )

  read_nodes-Pairwise :
      (ns : List ListedNode) (xs : List StaticNode)
      → Pairwise HasOtherUid ns
      → read_nodes D ns ≡ ok xs
      → Pairwise ApartStatic xs
  read_nodes-Pairwise [] xs h e =
      subst (Pairwise ApartStatic) (ok-injective [] xs (read_none ∙ e)) tt
  read_nodes-Pairwise (l ∷ ns) xs h e =
      let (o, ys, f, g, k) = read_nodes-parts l ns xs e in
      subst (Pairwise ApartStatic) k (
        with_found-Pairwise l o ys f (read_nodes-All (λ u. l.node.uid ≢ u) ns ys h.0 g)
          (read_nodes-Pairwise ns ys h.1 g))

  -- A static snapshot that is built of Nodes with different UIDs, and with it the identity under
  -- which it is put, is the same in whatever order the Nodes are listed.
  pub build_static_snapshot_any_order :
      (hash : StaticContent → Text) (cluster_id : Text) {ns ms : List ListedNode}
      (r : Text × StaticContent)
      → Permᴰ ns ms
      → Pairwise HasOtherUid ns
      → build_static_snapshot D hash cluster_id ns ≡ ok r
      → build_static_snapshot D hash cluster_id ms ≡ ok r
  unfolding build_static_snapshot
  build_static_snapshot_any_order hash cluster_id {ns = ns} {ms = ms} r p apart h =
      let (xs, e, h1) = bind-ok (read_nodes D ns) _ r h in
      let (ys, f, q) = read_nodes-Permᴰ xs p e in
      rw f (rw (sort_static-Permᴰ q (read_nodes-Pairwise ns xs apart e)) at h1)

module _ (K : Quantities) where
  open K use {Quantity}

  abbrev ApartState : SchedulerNodeState → SchedulerNodeState → Type 0
  ApartState a b = a.node_uid ≢ b.node_uid

  node_states-Permᴰ :
      (requested : List (Text × Requests K)) {ns ms : List ListedNode}
      → Permᴰ ns ms
      → Permᴰ (map (node_state K requested) ns) (map (node_state K requested) ms)
  node_states-Permᴰ requested Permᴰ.nil = Permᴰ.nil
  node_states-Permᴰ requested (Permᴰ.cons e d) =
      Permᴰ.cons (ap (node_state K requested) e) (node_states-Permᴰ requested d)
  node_states-Permᴰ requested (Permᴰ.swap e f) =
      Permᴰ.swap (ap (node_state K requested) e) (ap (node_state K requested) f)
  node_states-Permᴰ requested (Permᴰ.trans d k) =
      Permᴰ.trans (node_states-Permᴰ requested d) (node_states-Permᴰ requested k)

  node_states-All :
      (P : Text → Type 0) (requested : List (Text × Requests K)) (ns : List ListedNode)
      → All (λ l. P l.node.uid) ns
      → All (λ y. P y.node_uid) (map (node_state K requested) ns)
  unfolding node_state
  node_states-All P requested [] h = tt
  node_states-All P requested (l ∷ ns) h = (h.0, node_states-All P requested ns h.1)

  node_states-Pairwise :
      (requested : List (Text × Requests K)) (ns : List ListedNode)
      → Pairwise HasOtherUid ns
      → Pairwise ApartState (map (node_state K requested) ns)
  unfolding node_state
  node_states-Pairwise requested [] h = tt
  node_states-Pairwise requested (l ∷ ns) h = (
    node_states-All (λ u. l.node.uid ≢ u) requested ns h.0,
    node_states-Pairwise requested ns h.1,
  )

  -- The state of Nodes with different UIDs, and with it its identity, is the same in whatever order
  -- the Nodes are listed.
  pub build_scheduler_state_any_order :
      (hash : List SchedulerNodeState → Text) {ns ms : List ListedNode} (pods : List (Pod Quantity))
      → Permᴰ ns ms
      → Pairwise HasOtherUid ns
      → build_scheduler_state K hash ns pods ≡ build_scheduler_state K hash ms pods
  unfolding build_scheduler_state
  build_scheduler_state_any_order hash {ns = ns} {ms = ms} pods p apart =
      ap (λ s. (hash s, s))
        (sort_by-Permᴰ (state_before K) ApartState (λ a b n e. n (sym e))
          (λ a b h. text_lt_asymm a.node_uid b.node_uid h)
          (λ a b n h. text_lt_connected a.node_uid b.node_uid n h)
          (λ m a b h k. text_lt_between m.node_uid a.node_uid b.node_uid h k)
          (node_states-Permᴰ (sum_pods K pods []) p)
          (node_states-Pairwise (sum_pods K pods []) ns apart))
