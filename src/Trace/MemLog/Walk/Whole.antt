-- ===== src/Trace/MemLog/Walk/Whole.antt =====
-- The walk over all pages of a log.
use turf.Prelude.{
  ℕ, suc, ◌+◌, ◌*◌, ◌-◌, min, ◌≤◌, ◌≡◌, refl, sym, ap, ◌∙◌, List, [], ◌∷◌, ◌++◌, length, some,
  arith,
}
use turf.Trace.MemLog.{
  Event, Page, MemLog, events_per_page, first, page_events, dump_pages, dump_stats, dump_entire_log,
}
use turf.Trace.MemLog.Pages.{AllFull, dump_pages_one}
use turf.Trace.MemLog.Dump.{IsValid}
use turf.Trace.MemLog.Walk.{
  Iterator, from_head, begin, end, walk, from_slot, append_out, first-from_slot, walk_full,
  walk_tail,
}

page_from_slot :
    (n : ℕ) (p : Page) (all : n ≡ min events_per_page p.index)
    → from_slot 0 n p.events ≡ page_events p
unfolding page_events
page_from_slot n p all = sym (first-from_slot n p.events) ∙ ap (λ (k : ℕ). first k p.events) all

walk_page :
    (m : ℕ) (ps : List Page) (q p : Page) (stop : Iterator) (last : length stop.following ≡ 0)
    (full : events_per_page ≤ q.index)
    → walk (events_per_page + m) (from_head (q ∷ ps) p) stop
      ≡ append_out (page_events q) (walk m (from_head ps p) stop)
unfolding from_head
walk_page m [] q p stop last full =
    walk_full (events_per_page - 1) m 0 q p [] stop (omega arith) (omega (arith, last))
    ∙ ap (λ (t : List Event). append_out t (walk m (from_head [] p) stop))
        (page_from_slot events_per_page q (omega (arith, full)))
walk_page m (r ∷ ps) q p stop last full =
    walk_full (events_per_page - 1) m 0 q r (ps ++ p ∷ []) stop (omega arith) (omega (arith, last))
    ∙ ap (λ (t : List Event). append_out t (walk m (from_head (r ∷ ps) p) stop))
        (page_from_slot events_per_page q (omega (arith, full)))

walk_older :
    (ps : List Page) (p : Page) (full : AllFull ps) (within : p.index ≤ events_per_page)
    → walk
        (length ps * events_per_page + p.index)
        (from_head ps p)
        (record { page = p; following = []; index = p.index })
      ≡ some (dump_pages 0 (ps ++ p ∷ []))
unfolding append_out from_head dump_pages
walk_older [] p full within =
    let stop : Iterator = record { page = p; following = []; index = p.index } in
    let start : Iterator = record { page = p; following = []; index = 0 } in
    let steps : 0 + p.index ≡ p.index = omega arith in
    ap (λ (k : ℕ). walk k start stop) steps
    ∙ walk_tail p.index 0 p (omega arith) within
    ∙ ap some (page_from_slot p.index p (omega (arith, within)) ∙ sym (dump_pages_one p))
walk_older (q ∷ ps) p (h, full) within =
    let stop : Iterator = record { page = p; following = []; index = p.index } in
    let m = length ps * events_per_page + p.index in
    let steps : suc (length ps) * events_per_page + p.index ≡ events_per_page + m = omega arith in
    ap (λ (k : ℕ). walk k (from_head (q ∷ ps) p) stop) steps
    ∙ walk_page m ps q p stop refl h
    ∙ ap (append_out (page_events q)) (walk_older ps p full within)

-- On a log of which the pages before the last are full, the index of the last page is at most
-- `EventsPerPage`, and `m_numPages` is the number of pages, at most `MaxNumPages`: the loop from
-- `begin()` to `end()` ends, in as many rounds as `dumpStats` prints, and reads the events that
-- `dumpEntireLog` writes.
pub walk-dump :
    (s : MemLog) (valid : IsValid s)
    → walk (dump_stats s) (begin s) (end s) ≡ some (dump_entire_log 0 s)
unfolding dump_stats begin end dump_entire_log
walk-dump s valid =
    ap (λ (k : ℕ). walk k (begin s) (end s)) (omega (arith, valid.counted))
    ∙ walk_older s.older s.tail valid.full valid.within
