-- ===== src/Tests/Responses.antt =====
-- Runs of the check of a response, of the static snapshot and of a calculation.
use ngd_ngg_scheduling.Base.{refl, inl, inr, [], ◌∷◌, list_eq, lookup, insert, contains}
use ngd_ngg_scheduling.Text.{Text, text_Eq, lit, text_lt}
use ngd_ngg_scheduling.Sets.{has_text, add_text}
use ngd_ngg_scheduling.Response.{
  known_from, known_nodes, out_of_range, name_mismatch, check_nodes, node_out_of_order,
  check_node_order, group_out_of_order, check_groups, validate_response,
}
use ngd_ngg_scheduling.StaticSnapshot.{
  StaticSnapshotStatus, StaticSnapshotState, new_static_snapshot_state, StaticCacheStatus,
  StaticAck, Round, current, confirmed, syncing, failed, is_synchronized, acknowledge, publish,
  synchronize, build_and_synchronize, require_nodes, reconcile, run,
}
use ngd_ngg_scheduling.StaticSnapshot as Static
use ngd_ngg_scheduling.StaticSnapshot.Acknowledged.{Acknowledges, SomeRound, ready_acknowledged}

program : Unit {0}
unfolding list_eq lookup insert contains text_lt has_text add_text known_from known_nodes
    out_of_range name_mismatch check_nodes node_out_of_order check_node_order group_out_of_order
    check_groups validate_response current confirmed syncing failed is_synchronized acknowledge
    publish synchronize build_and_synchronize require_nodes reconcile run
program = tt

-- The Algorithm server acknowledges the snapshot s1, and then does not answer.
abbrev first_round : Round
first_round = record {
  now = 1;
  listed = Static.answered 2;
  built = Static.answered (lit "s1");
  remote = Static.refused (lit "timeout");
  ack =
      Static.answered
        (record { algorithm_boot_id = lit "b1"; accepted_snapshot = lit "s1"; node_count = 2 });
}

abbrev silent_round : Round
silent_round = record first_round {
  now = 2;
  built = Static.answered (lit "s2");
  ack = Static.refused (lit "timeout");
}

ready_acknowledged_example : SomeRound (Acknowledges (lit "s1") (lit "b1")) (first_round ∷ [])
unfolding program
ready_acknowledged_example = ready_acknowledged (first_round ∷ []) refl

abbrev closed : StaticSnapshotState
unfolding program
closed = run (first_round ∷ silent_round ∷ []) new_static_snapshot_state

never_acknowledged : (id boot : Text) → SomeRound (Acknowledges id boot) (silent_round ∷ []) → ⊥
never_acknowledged id boot (inl (b, (a, e, same, name, h))) = cc
never_acknowledged id boot (inr z) = absurd z
