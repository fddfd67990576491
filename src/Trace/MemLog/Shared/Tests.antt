-- ===== src/Trace/MemLog/Shared/Tests.antt =====
-- Two threads that log at the same time.
use turf.Prelude.{ℕ, ℕ_discrete, false, ◌≡◌, ◌+◌, ◌≤◌, ◌<◌, refl, arith}
use turf.Trace.MemLog.{events_per_page, max_num_pages}
use turf.Trace.MemLog.Shared.{System, Reach, here, next, adding, call, loaded, got_slot, write}
use turf.Trace.MemLog.Shared.Slots.{own_slot}
use turf.Trace.MemLog.Shared.Freed.{freed_page_used}
use turf.Trace.MemLog.Shared.Count.{pages_counted}

-- Thread 3 has stored an event, and threads 1 and 2 have slots.
logging : (s : System) × Reach s
unfolding ℕ_discrete
logging = (
  _,
  next 2
      (next 1
        (next 3
          (next 3
            (next 2 (next 1 (next 3 (next 2 (next 1 (next 3 here call) call) call) loaded) loaded)
              loaded)
            (got_slot 0 (omega arith) (omega arith)))
          (write 0 0 (omega arith)))
        (got_slot 0 (omega arith) (omega arith)))
      (got_slot 0 (omega arith) (omega arith)),
)

own_slot_example :
    (◌≡◌ {A = ℕ} 2 2)
    × (logging.0.written 0 2 ≡ false)
    × (2 < events_per_page)
    × (0 ≤ logging.0.tail)
unfolding logging ℕ_discrete
own_slot_example = own_slot logging.1 refl 2 2 0 2 refl refl

pages_counted_example :
    (logging.0.num_pages + logging.0.head ≡ logging.0.tail + 1)
    × (logging.0.num_pages ≤ max_num_pages)
unfolding logging ℕ_discrete
pages_counted_example = pages_counted logging.1 refl

freed_page_used_example : (s : System) × Reach s × (s.pc 1 ≡ adding 0) × (0 < s.head)
freed_page_used_example = freed_page_used 1 2 (omega arith)
