-- ===== src/Service/Reported.antt =====
-- Which Nodes the normalized usage states are about.
use ngd_ngg_scheduling.Base.{
  ◌≡◌, ◌≢◌, inl, inr, true, false, List, [], ◌∷◌, map, Option, none, some, lookup, contains, ok,
  All, All-map, ℤ, arith, Option-cases, Result-cases, Bool-cases,
}
use mathlib.Core.Path.{subst}
use ngd_ngg_scheduling.Text.{Text, text_Eq, lit}
use ngd_ngg_scheduling.Json.{
  Json, Fields, member, has_member, as_object, as_array, as_bool, elements,
}
use ngd_ngg_scheduling.StaticCache.{Encoding}
use ngd_ngg_scheduling.Service.Usage.{
  UsageState, uid_of, states_by_uid, listed, read_states, derived_state, derived_states,
  normalize_usage_states,
}

-- No two states have one UID.
abbrev pub Distinct : List UsageState → Type 0
Distinct [] = Unit
Distinct (s ∷ rest) = All (λ t. t.node_uid ≢ s.node_uid) rest × Distinct rest

-- The UIDs are known, not seen before, and different.
abbrev IsFresh : List Text → List Text → UsageState → Type 0
IsFresh known seen s = (contains s.node_uid known ≡ true) × (contains s.node_uid seen ≡ false)

not_seen :
    (uid : Text) (seen : List Text) (s : UsageState)
    → contains s.node_uid (uid ∷ seen) ≡ false
    → (s.node_uid ≢ uid) × (contains s.node_uid seen ≡ false)
unfolding contains
not_seen uid seen s h = ground (arith, text_Eq.beq_iff s.node_uid uid)

known_later :
    (uid first : Text) (known : List Text)
    → contains uid known ≡ true
    → contains uid (first ∷ known) ≡ true
unfolding contains
known_later uid first known h = ground arith

module _ (E : Encoding) (parse_quantity : Text → Text → Option ℤ) where
  nothing_read :
      (known seen : List Text) (s : UsageState) (states : List UsageState)
      → read_states E parse_quantity known seen [] ≢ ok (s ∷ states)
  unfolding read_states
  nothing_read known seen s states e = ground arith

  first_known :
      (node : Fields) (o : Option Fields) (rest : List Fields)
      → contains
          (derived_state E parse_quantity node o).node_uid
          (map (uid_of E parse_quantity) (node ∷ rest))
        ≡ true
  unfolding derived_state contains
  first_known node none rest =
      ground (arith, text_Eq.beq_iff (uid_of E parse_quantity node) (uid_of E parse_quantity node))
  first_known node (some state) rest =
      ground (arith, text_Eq.beq_iff (uid_of E parse_quantity node) (uid_of E parse_quantity node))

  -- What the loop has done with the first entry.
  read_states_first :
      (known seen : List Text) (raw : Json) (rest : List Json) (states : List UsageState)
      → read_states E parse_quantity known seen (raw ∷ rest) ≡ ok states
      → (s : UsageState) × ((later : List UsageState) × (IsFresh known seen s
            × ((read_states E parse_quantity known (s.node_uid ∷ seen) rest ≡ ok later)
                × (s ∷ later ≡ states))))
  unfolding read_states
  read_states_first known seen raw rest states e = elim (Option-cases (as_object raw)) [
    | inl missing ↦ absurd (ground arith)
    | inr (item, is_item) ↦
        let uid = uid_of E parse_quantity item in
        elim (Option-cases (as_bool (member (lit "inUse") item))) [
          | inl missing ↦ absurd (ground arith)
          | inr (in_use, is_bool) ↦
              elim (Result-cases (read_states E parse_quantity known (uid ∷ seen) rest)) [
                | inr (why, refused) ↦ absurd (ground arith)
                | inl (later, more) ↦
                    let s : UsageState = record {
                      node_uid = uid;
                      in_use = in_use;
                      requested_resources = as_object (member (lit "requestedResources") item);
                    } in
                    (s, (later, (ground arith, (more, ground arith))))
              ]
        ]
  ]

  read_states-IsFresh :
      (known seen : List Text) (items : List Json) (states : List UsageState)
      → read_states E parse_quantity known seen items ≡ ok states
      → All (IsFresh known seen) states × Distinct states
  read_states-IsFresh known seen [] [] e = (tt, tt)
  read_states-IsFresh known seen [] (s ∷ states) e = absurd (nothing_read known seen s states e)
  read_states-IsFresh known seen (raw ∷ rest) states e =
      let (s, (later, (fresh, (more, split)))) = read_states_first known seen raw rest states e in
      let (ahead, apart) = read_states-IsFresh known (s.node_uid ∷ seen) rest later more in
      subst (λ l. All (IsFresh known seen) l × Distinct l) split
        (
          (fresh, All-map _ _ (λ t h. (h.0, (not_seen s.node_uid seen t h.1).1)) later ahead),
          (All-map _ _ (λ t h. (not_seen s.node_uid seen t h.1).0) later ahead, apart),
        )

  -- A Node that one of the Nodes is.
  derived-known :
      (table : List (Text × Fields)) (nodes : List Fields)
      → All
          (λ s. contains s.node_uid (map (uid_of E parse_quantity) nodes) ≡ true)
          (derived_states E parse_quantity table nodes)
  unfolding derived_states
  derived-known table [] = tt
  derived-known table (node ∷ rest) = (
    first_known node (lookup (uid_of E parse_quantity node) table) rest,
    All-map _ _ (λ s h. known_later s.node_uid (uid_of E parse_quantity node) _ h) _
        (derived-known table rest),
  )

-- The usage states that go to the worker: each is that of a Node of the static snapshot, and where
-- the request lists them itself no Node stands twice.
pub normalize_usage_states_uids :
    (E : Encoding) (parse_quantity : Text → Text → Option ℤ) (request : Fields)
    (nodes : List Fields) (states : List UsageState)
    → normalize_usage_states E parse_quantity request nodes ≡ ok states
    → All (λ s. contains s.node_uid (map (uid_of E parse_quantity) nodes) ≡ true) states
      × (has_member (lit "nodeUsageStates") request ≡ true → Distinct states)
unfolding normalize_usage_states
normalize_usage_states_uids E q request nodes states e =
    let known = map (uid_of E q) nodes in
    elim (Bool-cases (has_member (lit "nodeUsageStates") request)) [
      | inl listed_there ↦ elim (Option-cases (as_array (member (lit "nodeUsageStates") request))) [
        | inl missing ↦ absurd (ground arith)
        | inr (items, is_array) ↦
            let (fresh, apart) =
              read_states-IsFresh E q known [] (elements items) states (ground arith) in
            (All-map _ _ (λ s h. h.0) states fresh, λ _. apart)
      ]
      | inr absent ↦ (
        subst (λ l. All (λ (s : UsageState). contains s.node_uid known ≡ true) l) (ground arith)
            (derived-known E q
              (states_by_uid E q (listed E q (member (lit "schedulerState") request)) []) nodes),
        λ there. absurd (ground arith),
      )
    ]
