-- ===== src/Refresh/Events.antt =====
-- What the controller of demand events leaves behind.
use ngd_ngg_scheduling.Base.{
  ℕ, ◌≡◌, refl, ◌∙◌, ◌↔◌, Bool, true, false, List, [], ◌∷◌, ◌++◌, Option, none, some, arith,
  if◌then◌else◌, ◌==◌, pos, ℕ_eq,
}
use ngd_ngg_scheduling.Text.{Text, text_Eq, lit, is_empty}
use ngd_ngg_scheduling.Naming.{grant_name}
use ngd_ngg_scheduling.Scheduler.{
  NamespacedName, name_Eq, RefreshTask, RefreshScheduler, sent, upsert, trigger, is_scheduled,
  is_current,
}
use ngd_ngg_scheduling.Scheduler.Identity.{
  task_of, has_identity, is_current-upsert, is_current-remove, is_current-tasks,
}
use ngd_ngg_scheduling.Scheduler.Timers.{event_of}
use ngd_ngg_scheduling.Refresh.{
  Demand, found, not_found, Written, accepted, absent, refused, Effect, set_status, delete_grant,
  done, errored, after_status, status_of, write_status, reconcile_present, reconcile_event,
}

-- What Trigger leaves alone, and that it sends the event where the key has a task.
trigger-sent :
    (cancelled prefer_send : Bool) (key : NamespacedName) (s s' : RefreshScheduler)
    → is_scheduled key s ≡ true
    → trigger cancelled prefer_send key s ≡ sent s'
    → (s'.tasks ≡ s.tasks) × (s'.events ≡ s.events ++ (event_of key ∷ []))
unfolding trigger
trigger-sent cancelled prefer_send key s s' has e = ground arith

upsert_current :
    (key : NamespacedName) (uid : Text) (generation : ℕ) (s : RefreshScheduler)
    → is_current key uid generation (upsert key uid generation s).0 ≡ true
upsert_current key uid generation s = ground (
  arith,
  is_current-upsert key key uid generation s uid generation,
  name_Eq.beq_iff key key,
  text_Eq.beq_iff uid uid,
)

current_scheduled :
    (key : NamespacedName) (uid : Text) (generation : ℕ) (s : RefreshScheduler)
    → is_current key uid generation s ≡ true
    → is_scheduled key s ≡ true
unfolding is_current is_scheduled
current_scheduled key uid generation s h = ground arith

upsert-events :
    (key : NamespacedName) (uid : Text) (generation : ℕ) (s : RefreshScheduler)
    → (upsert key uid generation s).0.events ≡ s.events
unfolding upsert
upsert-events key uid generation s = ground arith

-- The status that a demand is owed, by what the scheduler knew of its name before.
abbrev pub owed_status : Option RefreshTask → Demand → List Effect
owed_status none demand =
    if is_empty demand.phase
    then set_status (lit "Pending") [] (pos 0) (lit "WaitingForInitialCalculation") ∷ []
    else []
owed_status (some task) demand =
    if has_identity demand.uid demand.generation (some task)
    then []
    else set_status (lit "Updating") demand.grant_ref demand.resolved_node_count
        (lit "DemandSpecChanged")
      ∷ []

abbrev listed : Option Effect → List Effect
listed none = []
listed (some e) = e ∷ []

status-owed :
    (key : NamespacedName) (demand : Demand) (s : RefreshScheduler)
    → let u = upsert key demand.uid demand.generation s in
      listed (status_of u.1 u.2 demand) ≡ owed_status (task_of key s) demand
unfolding upsert status_of
status-owed key demand s = ground arith

after_status_done :
    (cancelled prefer_send : Bool) (key : NamespacedName) (demand : Demand) (effects : List Effect)
    (s : RefreshScheduler)
    → let u = (upsert key demand.uid demand.generation s).0 in
      let r = after_status cancelled prefer_send key effects u in
      r.ended ≡ done
      → (is_current key demand.uid demand.generation r.scheduler ≡ true)
        × (r.scheduler.events ≡ s.events ++ (event_of key ∷ []))
        × (r.effects ≡ effects)
unfolding after_status
after_status_done cancelled prefer_send key demand effects s h =
    let u = (upsert key demand.uid demand.generation s).0 in
    let now = upsert_current key demand.uid demand.generation s in
    grind (
      arith,
      now,
      current_scheduled key demand.uid demand.generation u now,
      trigger-sent cancelled prefer_send key u,
      is_current-tasks key demand.uid demand.generation u,
      upsert-events key demand.uid demand.generation s,
    )

write_status_done :
    (cancelled prefer_send : Bool) (written : Written) (key : NamespacedName) (demand : Demand)
    (o : Option Effect) (s : RefreshScheduler)
    → let u = (upsert key demand.uid demand.generation s).0 in
      let r = write_status cancelled prefer_send written key o u in
      r.ended ≡ done
      → (is_current key demand.uid demand.generation r.scheduler ≡ true)
        × (r.scheduler.events ≡ s.events ++ (event_of key ∷ []))
        × (r.effects ≡ listed o)
unfolding write_status
write_status_done cancelled prefer_send written key demand none s h =
    after_status_done cancelled prefer_send key demand [] s h
write_status_done cancelled prefer_send accepted key demand (some e) s h =
    after_status_done cancelled prefer_send key demand (e ∷ []) s h
write_status_done cancelled prefer_send absent key demand (some e) s h = cc
write_status_done cancelled prefer_send refused key demand (some e) s h = cc

-- Whenever Reconcile of a demand that exists returns without an error, the scheduler holds the
-- demand's identity, the event of its key has been queued, and exactly the owed status has been
-- written: Pending for a new demand without a phase, Updating with the old grant and count for a
-- known name under another UID or generation, and nothing else.
pub reconcile_event_done :
    (cancelled prefer_send : Bool) (written : Written) (demand : Demand) (key : NamespacedName)
    (s : RefreshScheduler)
    → (reconcile_event cancelled prefer_send written (found demand) key s).ended ≡ done
    → let r = reconcile_event cancelled prefer_send written (found demand) key s in
      (is_current key demand.uid demand.generation r.scheduler ≡ true)
      × (r.scheduler.events ≡ s.events ++ (event_of key ∷ []))
      × (r.effects ≡ owed_status (task_of key s) demand)
unfolding reconcile_event reconcile_present
reconcile_event_done cancelled prefer_send written demand key s h =
    let u = upsert key demand.uid demand.generation s in
    let o = status_of u.1 u.2 demand in
    let r = write_status_done cancelled prefer_send written key demand o s h in
    (r.0, r.1, r.2 ∙ status-owed key demand s)

-- Where the demand is gone, Reconcile ends its task and asks for the deletion of its grant, and it
-- fails exactly if that is refused: a grant that is already absent is no error. The other keys keep
-- their identities.
pub reconcile_event_deleted :
    (cancelled prefer_send : Bool) (written : Written) (key j : NamespacedName) (uid : Text)
    (generation : ℕ) (s : RefreshScheduler)
    → let r = reconcile_event cancelled prefer_send written not_found key s in
      (is_current j uid generation r.scheduler
        ≡ (if j == key then false else is_current j uid generation s))
      × (r.effects ≡ delete_grant (grant_name key.name) ∷ [])
      × ((r.ended ≡ errored) ↔ (written ≡ refused))
unfolding reconcile_event
reconcile_event_deleted cancelled prefer_send written key j uid generation s =
    (is_current-remove key j uid generation s, refl, ground arith)
