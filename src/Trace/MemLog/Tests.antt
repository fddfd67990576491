-- ===== src/Trace/MemLog/Tests.antt =====
-- The results of this part at concrete logs.
use turf.Prelude.{◌≡◌, refl, [], ◌∷◌, some, arith}
use turf.Trace.MemLog.{Event, Page, MemLog, init, dump_entire_log, dump_stats, log}
use turf.Trace.MemLog.Dump.{IsValid}
use turf.Trace.MemLog.Walk.{begin, end, walk}
use turf.Trace.MemLog.Walk.Whole.{walk-dump}
use turf.Trace.MemLog.Kept.{IsRecent, log_all, log_all-IsRecent}

abbrev started : Event
started = record { tid = 1; msg = 7; param1 = 10; param2 = 0 }

abbrev stopped : Event
stopped = record { tid = 2; msg = 8; param1 = 11; param2 = 5 }

-- Every slot of the page has the same event.
abbrev full_page : Page
full_page = record { index = 16384; events = λ i. started }

abbrev full_log : MemLog
full_log = record {
  older = full_page ∷ full_page ∷ full_page ∷ [];
  tail = full_page;
  num_pages = 4;
}

full_log-IsValid : IsValid full_log
full_log-IsValid = record {
  counted = refl;
  few = omega arith;
  full = (omega arith, (omega arith, (omega arith, tt)));
  within = omega arith;
}

log_two_lem : dump_entire_log 0 (log stopped (log started init)) ≡ started ∷ stopped ∷ []
unfolding dump_entire_log log
log_two_lem = refl

log_all-IsRecent_example :
    IsRecent (started ∷ stopped ∷ []) (dump_entire_log 0 (log_all (started ∷ stopped ∷ []) init))
log_all-IsRecent_example = log_all-IsRecent (started ∷ stopped ∷ [])

walk-dump_example :
    walk (dump_stats full_log) (begin full_log) (end full_log) ≡ some (dump_entire_log 0 full_log)
walk-dump_example = walk-dump full_log full_log-IsValid
