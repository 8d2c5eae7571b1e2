-- ===== src/StaticSnapshot/Acknowledged.antt =====
-- What the shared state of the Node static snapshot promises to the calculations that read it.
use ngd_ngg_scheduling.Base.{
  ℕ, ◌≡◌, refl, ◌≢◌, ◌⊎◌, inl, inr, true, false, List, [], ◌∷◌, some, arith, Bool-cases,
}
use ngd_ngg_scheduling.Text.{Text, text_Eq, is_empty}
use ngd_ngg_scheduling.StaticSnapshot.{
  StaticSnapshotState, new_static_snapshot_state, StaticAck, StaticCacheStatus, Answer, answered,
  refused, Round, is_synchronized, acknowledge, syncing, publish, synchronize,
  build_and_synchronize, require_nodes, reconcile, run, remote_boot_id,
}

-- The round built the snapshot, and the Algorithm server took it and named itself.
abbrev pub Acknowledges : Text → Text → Round → Type 0
Acknowledges id boot round =
    (round.built ≡ answered id)
    × ((a : StaticAck) × (round.ack ≡ answered a)
        × (a.accepted_snapshot ≡ id)
        × (a.algorithm_boot_id ≡ boot)
        × (boot ≢ []))

abbrev pub SomeRound : (Round → Type 0) → List Round → Type 0
SomeRound P [] = ⊥
SomeRound P (r ∷ rs) = P r ⊎ SomeRound P rs

-- Readers see the same as before.
abbrev Kept : StaticSnapshotState → StaticSnapshotState → Type 0
Kept s s' =
    (s'.ready ≡ s.ready)
    × (s'.status.snapshot_id ≡ s.status.snapshot_id)
    × (s'.status.algorithm_boot_id ≡ s.status.algorithm_boot_id)

abbrev Opened : Round → StaticSnapshotState → Type 0
Opened round s' =
    (s'.ready ≡ true) × Acknowledges s'.status.snapshot_id s'.status.algorithm_boot_id round

abbrev Moved : Round → StaticSnapshotState → StaticSnapshotState → Type 0
Moved round s s' = Kept s s' ⊎ ((s'.ready ≡ false) ⊎ Opened round s')

is_empty-false : (s : Text) → is_empty s ≡ false → s ≢ []
is_empty-false [] h = cc
is_empty-false (x ∷ s) h = λ z. cc

-- The answer names the snapshot and the boot.
abbrev Names : Text → Text → Answer StaticAck → Type 0
Names id boot x =
    (a : StaticAck) × (x ≡ answered a)
    × (a.accepted_snapshot ≡ id)
    × (a.algorithm_boot_id ≡ boot)
    × (boot ≢ [])

acknowledge_moves :
    (id : Text) (count now : ℕ) (x : Answer StaticAck) (s : StaticSnapshotState)
    → s.ready ≡ false
    → ((acknowledge id count now x s).0.ready ≡ false)
      ⊎ (((acknowledge id count now x s).0.ready ≡ true)
          × ((acknowledge id count now x s).0.status.snapshot_id ≡ id)
          × Names id (acknowledge id count now x s).0.status.algorithm_boot_id x)
unfolding acknowledge
acknowledge_moves id count now (refused m) s h = inl h
acknowledge_moves id count now (answered a) s h =
    ground (arith, text_Eq.beq_iff a.accepted_snapshot id, is_empty-false a.algorithm_boot_id)

publish_moves :
    (id : Text) (count : ℕ) (round : Round) (s : StaticSnapshotState)
    → round.built ≡ answered id
    → Moved round s (publish id count round.now round.ack s).state
unfolding publish syncing
publish_moves id count round s b =
    elim (acknowledge_moves id count round.now round.ack (syncing round.now s) refl) [
      | inl closed ↦ inr (inl closed)
      | inr (ready, same, (a, e, names, boot, some_boot)) ↦
          inr (inr (ready, (rw same b, (a, e, rw same names, boot, some_boot))))
    ]

synchronized :
    (id : Text) (s : StaticSnapshotState) (x : Answer StaticCacheStatus)
    → is_synchronized id s x ≡ true
    → remote_boot_id x ≡ s.status.algorithm_boot_id
unfolding is_synchronized
synchronized id s (answered a) h =
    ground (arith, text_Eq.beq_iff a.algorithm_boot_id s.status.algorithm_boot_id)
synchronized id s (refused m) h = cc

synchronize_moves :
    (id : Text) (count : ℕ) (round : Round) (s : StaticSnapshotState)
    → round.built ≡ answered id
    → Moved round s (synchronize id count round s).state
unfolding synchronize
synchronize_moves id count round s b = ground (
  arith,
  publish_moves id count round s b,
  synchronized id s round.remote,
  text_Eq.beq_iff s.status.snapshot_id id,
)

build_moves :
    (x : Answer Text) (count : ℕ) (round : Round) (s : StaticSnapshotState)
    → round.built ≡ x
    → Moved round s (build_and_synchronize x count round s).state
unfolding build_and_synchronize
build_moves (answered id) count round s b = synchronize_moves id count round s b
build_moves (refused m) count round s b = inl (refl, refl, refl)

listed_moves :
    (round : Round) (s : StaticSnapshotState) (x : Answer ℕ)
    → round.listed ≡ x
    → Moved round s (reconcile round s).state
unfolding reconcile require_nodes
listed_moves round s (answered count) e =
    rw e (ground (arith, build_moves round.built count round s refl))
listed_moves round s (refused m) e = rw e (inl (refl, refl, refl))

reconcile_moves :
    (round : Round) (s : StaticSnapshotState) → Moved round s (reconcile round s).state
reconcile_moves round s = listed_moves round s round.listed refl

abbrev Ready : (Text → Text → Type 0) → StaticSnapshotState → Type 0
Ready P s = s.ready ≡ true → P s.status.snapshot_id s.status.algorithm_boot_id

reconcile-Ready :
    (P : Text → Text → Type 0) (r : Round) (s : StaticSnapshotState)
    → Ready P s
    → Ready (λ id boot. P id boot ⊎ Acknowledges id boot r) (reconcile r s).state
reconcile-Ready P r s p h = elim (reconcile_moves r s) [
  | inl (ready, id, boot) ↦ inl (rw (id, boot) (p (cc (ready, h))))
  | inr (inl closed) ↦ cc
  | inr (inr (ready, a)) ↦ inr a
]

run-Ready :
    (P : Text → Text → Type 0) (rounds : List Round) (s : StaticSnapshotState)
    → Ready P s
    → Ready (λ id boot. P id boot ⊎ SomeRound (Acknowledges id boot) rounds) (run rounds s)
unfolding run
run-Ready P [] s p h = inl (p h)
run-Ready P (r ∷ rs) s p h =
    elim (run-Ready (λ id boot. P id boot ⊎ Acknowledges id boot r) rs (reconcile r s).state
      (reconcile-Ready P r s p) h) [
        | inl (inl q) ↦ inl q
        | inl (inr a) ↦ inr (inl a)
        | inr t ↦ inr (inr t)
      ]

-- After any calls of Reconcile from the start, a state that is ready names a snapshot identity and
-- a boot identity that the Algorithm server acknowledged in one of the calls: the call built the
-- snapshot, its putStatic was answered, and the answer holds that snapshot and that non-empty boot.
pub ready_acknowledged :
    (rounds : List Round)
    → (run rounds new_static_snapshot_state).ready ≡ true
    → SomeRound
        (Acknowledges
          (run rounds new_static_snapshot_state).status.snapshot_id
          (run rounds new_static_snapshot_state).status.algorithm_boot_id)
        rounds
ready_acknowledged rounds h =
    elim (run-Ready (λ id boot. ⊥) rounds new_static_snapshot_state (λ z. cc) h) [
      | inl z ↦ absurd z
      | inr t ↦ t
    ]

-- A state that is not ready stays so as long as no call of Reconcile gets its own snapshot
-- acknowledged.
pub closed_until_acknowledged :
    (rounds : List Round) (s : StaticSnapshotState)
    → s.ready ≡ false
    → ((id boot : Text) → SomeRound (Acknowledges id boot) rounds → ⊥)
    → (run rounds s).ready ≡ false
closed_until_acknowledged rounds s h never = elim (Bool-cases (run rounds s).ready) [
  | inl t ↦ elim (run-Ready (λ id boot. ⊥) rounds s (λ z. cc (z, h)) t) [
    | inl z ↦ absurd z
    | inr a ↦ absurd (never _ _ a)
  ]
  | inr f ↦ f
]

-- While putStatic runs, readers find the state not ready.
pub published_closed :
    (round : Round) (s s' : StaticSnapshotState)
    → (reconcile round s).published ≡ some s'
    → s'.ready ≡ false
unfolding reconcile require_nodes build_and_synchronize synchronize publish syncing
published_closed round s s' h = ground arith
