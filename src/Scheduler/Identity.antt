-- ===== src/Scheduler/Identity.antt =====
-- Which identity, UID and generation, each operation of the scheduler makes the current one of a
-- key: the abstract view of the scheduler as a map from names to identities.
use ngd_ngg_scheduling.Base.{
  ℕ, ◌≡◌, refl, ◌⊎◌, inl, inr, Bool, false, ◌&&◌, List, [], ◌∷◌, Option, none, some, arith,
  if◌then◌else◌, ◌==◌, lookup, nat_eq, lookup-insert, lookup-delete, ℤ, is_some,
}
use ngd_ngg_scheduling.Text.{Text, text_Eq}
use ngd_ngg_scheduling.Scheduler.{
  NamespacedName, name_Eq, RefreshTask, Timer, RefreshScheduler, upsert, is_current, begin, finish,
  schedule_after, on_timer, remove, drop_task, stop_tasks, shut_down, Emitted, sent, failed,
  waiting, emit,
}

-- The task of a key, as the map holds it.
abbrev pub task_of : NamespacedName → RefreshScheduler → Option RefreshTask
task_of key s = lookup key s.tasks

-- Whether a task is there and has the identity: `is_current` as a function of the entry.
abbrev pub has_identity : Text → ℕ → Option RefreshTask → Bool
has_identity uid generation none = false
has_identity uid generation (some task) = (task.uid == uid) && nat_eq task.generation generation

pub is_current_lem :
    (key : NamespacedName) (uid : Text) (generation : ℕ) (s : RefreshScheduler)
    → is_current key uid generation s ≡ has_identity uid generation (task_of key s)
unfolding is_current
is_current_lem key uid generation s = ground arith

-- What each operation makes of the entry of its key.
abbrev with_cancel : Option ℕ → Option RefreshTask → Option RefreshTask
with_cancel c none = none
with_cancel c (some task) = some (record task { cancel = c })

abbrev pub with_timer : Option ℕ → Option RefreshTask → Option RefreshTask
with_timer t none = none
with_timer t (some task) = some (record task { timer = t })

-- Upsert keeps a task of the same identity and makes a bare one otherwise.
abbrev upserted : Text → ℕ → Option RefreshTask → Option RefreshTask
upserted uid generation o =
    if has_identity uid generation o
    then o
    else some (record { uid = uid; generation = generation; timer = none; cancel = none })

module _ (key j : NamespacedName) (s : RefreshScheduler) where
  pub task_of-begin :
      task_of j (begin key s).0
      ≡ (if j == key then with_cancel (some s.next) (task_of key s) else task_of j s)
  unfolding begin
  task_of-begin = grind (arith, lookup-insert, name_Eq.beq_iff j key)

  pub task_of-remove : task_of j (remove key s) ≡ (if j == key then none else task_of j s)
  unfolding remove
  task_of-remove = grind (arith, lookup-delete, name_Eq.beq_iff j key)

  pub task_of-upsert :
      (uid : Text) (generation : ℕ)
      → task_of j (upsert key uid generation s).0
        ≡ (if j == key then upserted uid generation (task_of key s) else task_of j s)
  unfolding upsert
  task_of-upsert uid generation = grind (arith, lookup-insert, name_Eq.beq_iff j key)

  pub task_of-finish :
      (uid : Text) (generation : ℕ)
      → task_of j (finish key uid generation s) ≡ (
          if (j == key) && has_identity uid generation (task_of key s)
          then with_cancel none (task_of key s)
          else task_of j s)
  unfolding finish
  task_of-finish uid generation = grind (arith, lookup-insert, name_Eq.beq_iff j key)

  pub task_of-schedule_after :
      (uid : Text) (generation : ℕ) (delay : ℤ)
      → task_of j (schedule_after key uid generation delay s) ≡ (
          if (j == key) && has_identity uid generation (task_of key s)
          then with_timer (some s.next) (task_of key s)
          else task_of j s)
  unfolding schedule_after
  task_of-schedule_after uid generation delay = grind (arith, lookup-insert, name_Eq.beq_iff j key)

pub task_of-on_timer :
    (j : NamespacedName) (t : Timer) (s : RefreshScheduler)
    → task_of j (on_timer t s).0 ≡ (
        if (j == t.key) && has_identity t.uid t.generation (task_of t.key s)
        then with_timer none (task_of t.key s)
        else task_of j s)
unfolding on_timer
task_of-on_timer j t s = grind (arith, lookup-insert, name_Eq.beq_iff j t.key)

task_of-stop_tasks :
    (j : NamespacedName) (l : List (NamespacedName × RefreshTask)) (s : RefreshScheduler)
    → task_of j (stop_tasks l s) ≡ (if is_some (lookup j l) then none else task_of j s)
unfolding stop_tasks lookup
task_of-stop_tasks j [] s = refl
task_of-stop_tasks j ((key, task) ∷ l) s =
    ground (arith, task_of-stop_tasks j l (drop_task key task s), lookup-delete key j s.tasks)

-- After the shutdown of the scheduler no key has a task.
pub task_of-shut_down : (j : NamespacedName) (s : RefreshScheduler) → task_of j (shut_down s) ≡ none
unfolding shut_down
task_of-shut_down j s = ground (arith, task_of-stop_tasks j s.tasks s)

has_identity-upserted :
    (u uid : Text) (g generation : ℕ) (o : Option RefreshTask)
    → has_identity u g (upserted uid generation o) ≡ ((uid == u) && nat_eq generation g)
has_identity-upserted u uid g generation none = refl
has_identity-upserted u uid g generation (some task) =
    ground (arith, text_Eq.beq_iff task.uid uid, text_Eq.beq_iff uid u, text_Eq.beq_iff task.uid u)

has_identity-with_cancel :
    (u : Text) (g : ℕ) (c : Option ℕ) (o : Option RefreshTask)
    → has_identity u g (with_cancel c o) ≡ has_identity u g o
has_identity-with_cancel u g c none = refl
has_identity-with_cancel u g c (some task) = refl

has_identity-with_timer :
    (u : Text) (g : ℕ) (t : Option ℕ) (o : Option RefreshTask)
    → has_identity u g (with_timer t o) ≡ has_identity u g o
has_identity-with_timer u g t none = refl
has_identity-with_timer u g t (some task) = refl

module _ (key j : NamespacedName) (u : Text) (g : ℕ) (s : RefreshScheduler) where
  -- After Upsert its identity is the only current one of its key, whatever was there, and every
  -- other key has the identity that it had.
  pub is_current-upsert :
      (uid : Text) (generation : ℕ)
      → is_current j u g (upsert key uid generation s).0
        ≡ (if j == key then (uid == u) && nat_eq generation g else is_current j u g s)
  is_current-upsert uid generation =
      rw (is_current_lem, is_current_lem, task_of-upsert key j s uid generation)
        (ground (arith, has_identity-upserted u uid g generation (task_of key s)))

  -- After Remove no identity of its key is current, and every other key has the one that it had.
  pub is_current-remove :
      is_current j u g (remove key s) ≡ (if j == key then false else is_current j u g s)
  is_current-remove = rw (is_current_lem, is_current_lem, task_of-remove key j s) (ground arith)

  pub is_current-begin : is_current j u g (begin key s).0 ≡ is_current j u g s
  is_current-begin =
      rw (is_current_lem, is_current_lem, task_of-begin key j s)
        (ground (
          arith,
          name_Eq.beq_iff j key,
          has_identity-with_cancel u g (some s.next) (task_of key s),
        ))

  pub is_current-finish :
      (uid : Text) (generation : ℕ)
      → is_current j u g (finish key uid generation s) ≡ is_current j u g s
  is_current-finish uid generation =
      rw (is_current_lem, is_current_lem, task_of-finish key j s uid generation)
        (ground (arith, name_Eq.beq_iff j key, has_identity-with_cancel u g none (task_of key s)))

  pub is_current-schedule_after :
      (uid : Text) (generation : ℕ) (delay : ℤ)
      → is_current j u g (schedule_after key uid generation delay s) ≡ is_current j u g s
  is_current-schedule_after uid generation delay =
      rw (is_current_lem, is_current_lem, task_of-schedule_after key j s uid generation delay)
        (ground
          (arith, name_Eq.beq_iff j key, has_identity-with_timer u g (some s.next) (task_of key s)))

pub is_current-on_timer :
    (j : NamespacedName) (u : Text) (g : ℕ) (t : Timer) (s : RefreshScheduler)
    → is_current j u g (on_timer t s).0 ≡ is_current j u g s
is_current-on_timer j u g t s =
    rw (is_current_lem, is_current_lem, task_of-on_timer j t s)
      (ground (arith, name_Eq.beq_iff j t.key, has_identity-with_timer u g none (task_of t.key s)))

-- `is_current` reads the tasks alone.
pub is_current-tasks :
    (key : NamespacedName) (uid : Text) (generation : ℕ) (s s' : RefreshScheduler)
    → s'.tasks ≡ s.tasks
    → is_current key uid generation s' ≡ is_current key uid generation s
unfolding is_current
is_current-tasks key uid generation s s' e = rw e

-- A send changes neither the tasks nor the contexts.
pub emit-same :
    (over prefer_send : Bool) (key : NamespacedName) (s s' : RefreshScheduler)
    → emit over prefer_send key s ≡ sent s'
    → (s'.tasks ≡ s.tasks) × (s'.cancelled ≡ s.cancelled)
unfolding emit
emit-same over prefer_send key s s' e = ground arith

-- What a send comes to.
pub emit-cases :
    (over prefer_send : Bool) (key : NamespacedName) (s : RefreshScheduler)
    → ((s' : RefreshScheduler) × (emit over prefer_send key s ≡ sent s'))
      ⊎ ((emit over prefer_send key s ≡ failed) ⊎ (emit over prefer_send key s ≡ waiting))
emit-cases over prefer_send key s = cases (emit over prefer_send key s) refl
  where
    cases :
        (e : Emitted)
        → emit over prefer_send key s ≡ e
        → ((s' : RefreshScheduler) × (emit over prefer_send key s ≡ sent s'))
          ⊎ ((emit over prefer_send key s ≡ failed) ⊎ (emit over prefer_send key s ≡ waiting))
    cases (sent s') e = inl (s', e)
    cases failed e = inr (inl e)
    cases waiting e = inr (inr e)
