-- ===== src/JobDispatcher/Resize/Laws.antt =====
-- Which threads call the action that a kick was given.
use turf.Prelude.{
  ℕ, zero, suc, ◌+◌, ◌-◌, ◌%◌, ◌^◌, ◌<◌, ◌≤◌, ltb, leb, ◌==◌, if◌then◌else◌, true, Option, none,
  some, List, [], ◌∷◌, ◌++◌, ◌≡◌, refl, ap, sym, arith, lt→ltb, ltb→lt, leb→le, Bool-cases, inl,
  inr,
}
use turf.JobDispatcher.Resize.{
  Dispatcher, Kicked, is_asserted, reset_action, set_num_spawned_threads, calls, run_gates, kick,
  kick_one, kick_multi,
}

-- The threads 0 to `k`, in order, each with what it is given.
unfoldable pub each : ℕ → Option ℕ → List (ℕ × Option ℕ)
each zero a = (0, a) ∷ []
each (suc k) a = each k a ++ (suc k, a) ∷ []

calls-each :
    (k : ℕ) (d : Dispatcher) → d.filter ≡ none → (0, d.action) ∷ calls k d ≡ each k d.action
unfolding calls each
calls-each zero d e = refl
calls-each (suc k) d e = rw (sym (calls-each k d e), e) refl

-- A filter leaves one thread.
calls-one :
    (k t : ℕ) (d : Dispatcher)
    → d.filter ≡ some t
    → calls k d ≡ (if t == 0 then [] else if leb t k then (t, d.action) ∷ [] else [])
unfolding calls
calls-one zero t d e = ground arith
calls-one (suc k) t d e = ground (arith, calls-one k t d e)

resize_up :
    (num_threads : ℕ) (d : Dispatcher)
    → d.num_threads ≤ num_threads
    → is_asserted num_threads d.cores ≡ true
    → set_num_spawned_threads num_threads d ≡ some (record d { num_threads = num_threads })
unfolding set_num_spawned_threads
resize_up num_threads d le holds = elim (Bool-cases (ltb num_threads d.num_threads)) [
  | inl fewer ↦ absurd (omega (arith, ltb→lt num_threads d.num_threads fewer))
  | inr enough ↦ rw (holds, enough) refl
]

resize_down :
    (num_threads : ℕ) (d : Dispatcher)
    → num_threads < d.num_threads
    → is_asserted num_threads d.cores ≡ true
    → set_num_spawned_threads num_threads d
      ≡ some (record d { num_threads = num_threads; action = none; filter = none })
unfolding set_num_spawned_threads
resize_down num_threads d lt holds = rw (holds, lt→ltb num_threads d.num_threads lt) refl

run_one :
    (t : ℕ) (d : Dispatcher)
    → d.filter ≡ some t
    → t < d.num_threads
    → (run_gates (t == 0) d).made ≡ (t, d.action) ∷ []
unfolding run_gates
run_one t d e lt = ground (arith, calls-one (d.num_threads - 1) t d e)

-- With no filter set, `kick` has each thread call its function once, thread 0 first, and leaves no
-- action behind.
pub kick-each :
    (closure : ℕ) (d : Dispatcher)
    → d.filter ≡ none
    → ((kick closure d).made ≡ each (d.num_threads - 1) (some closure))
      × ((kick closure d).after ≡ record d { action = none })
unfolding kick reset_action
kick-each closure d e = (
  calls-each (d.num_threads - 1) (record d { action = some closure }) e,
  ap (λ f. record d { action = none; filter = f }) (sym e),
)

-- `kickOne` on a thread index for whose number of threads, which is a word, the assertions of
-- `setNumSpawnedThreads` hold has the thread of that index make the call once, and no other thread.
pub kick_one-one :
    (thread_index closure : ℕ) (d : Dispatcher)
    → thread_index + 1 < 2 ^ 64
    → is_asserted (thread_index + 1) d.cores ≡ true
    → (k : Kicked) × (kick_one thread_index closure d ≡ some k)
      × (k.made ≡ (thread_index, some closure) ∷ [])
unfolding kick_one reset_action
kick_one-one t closure d fits holds =
    let set = record d { filter = some t; action = some closure } in
    let word : (t + 1) % 2 ^ 64 ≡ t + 1 = omega (arith, fits) in
    elim (Bool-cases (leb d.num_threads t)) [
      | inl beyond ↦
          let grown = record set { num_threads = t + 1 } in
          (
            run_gates (t == 0) grown,
            rw
                (
                  beyond,
                  word,
                  resize_up (t + 1) set (omega (arith, leb→le d.num_threads t beyond)) holds,
                )
                refl,
            run_one t grown refl (omega arith),
          )
      | inr within ↦
          let lt : t < d.num_threads = ground (arith, within) in
          (run_gates (t == 0) set, rw (within) refl, run_one t set refl lt)
    ]

-- With no filter set, `kickMulti` on at least as many targets as there are threads, where the
-- assertions of `setNumSpawnedThreads` hold, has every target called once, in the thread of its index.
pub kick_multi-each :
    (num_targets closure : ℕ) (d : Dispatcher)
    → d.filter ≡ none
    → d.num_threads ≤ num_targets
    → is_asserted num_targets d.cores ≡ true
    → (k : Kicked) × (kick_multi num_targets closure d ≡ some k)
      × (k.made ≡ each (num_targets - 1) (some closure))
unfolding kick_multi
kick_multi-each num_targets closure d e enough holds =
    let set = record d { num_threads = num_targets; action = some closure } in
    (
      run_gates true set,
      rw (resize_up num_targets (record d { action = some closure }) enough holds) refl,
      calls-each (num_targets - 1) set e,
    )

-- `kickMulti` on fewer targets than there are threads, where the assertions of `setNumSpawnedThreads`
-- hold, of which one is that there is a target, calls no target at all: the threads that are left call
-- `noAction`, which `setNumSpawnedThreads` has put in the place of the action.
pub kick_multi_loses_action :
    (num_targets closure : ℕ) (d : Dispatcher)
    → num_targets < d.num_threads
    → is_asserted num_targets d.cores ≡ true
    → (k : Kicked) × (kick_multi num_targets closure d ≡ some k)
      × (k.made ≡ each (num_targets - 1) none)
unfolding kick_multi
kick_multi_loses_action num_targets closure d fewer holds =
    let left = record d { num_threads = num_targets; action = none; filter = none } in
    (
      run_gates true left,
      rw (resize_down num_targets (record d { action = some closure }) fewer holds) refl,
      calls-each (num_targets - 1) left refl,
    )
