-- ===== src/Trace/MemLog/Sizes.antt =====
-- How long the dump is, and the dump from a later page on.
use turf.Prelude.{
  ℕ, zero, suc, ◌+◌, ◌*◌, ◌≤◌, min, ◌≡◌, refl, sym, ap, ◌∙◌, List, [], ◌∷◌, ◌++◌, length, drop,
  length-append, drop-drop, drop_all, arith,
}
use turf.Trace.MemLog.{
  Event, Page, MemLog, events_per_page, first, page_events, dump_pages, dump_entire_log, dump_stats,
}
use turf.Trace.MemLog.Pages.{AllFull, length-first, dump_pages_one, length-dump_pages}
use turf.Trace.MemLog.Dump.{IsValid, dump_entire_log_lem, drop_page}

-- The size of the dump is what `dumpStats` prints.
pub dump_stats-length :
    (s : MemLog) (valid : IsValid s) → dump_stats s ≡ length (dump_entire_log 0 s)
unfolding dump_stats page_events
dump_stats-length s valid =
    let out : length (dump_entire_log 0 s)
        ≡ length (dump_pages 0 s.older)
          + length (first (min events_per_page s.tail.index) s.tail.events) =
      ap (λ (t : List Event). length t) (dump_entire_log_lem s)
      ∙ length-append (dump_pages 0 s.older) _ in
    omega (
      arith,
      out,
      length-dump_pages s.older valid.full,
      length-first (min events_per_page s.tail.index) s.tail.events,
      valid.counted,
      valid.within,
    )

nothing_left : (n : ℕ) (p : Page) → dump_pages (suc n) (p ∷ []) ≡ []
unfolding dump_pages
nothing_left zero p = refl
nothing_left (suc n) p = refl

length-page_events_le : (p : Page) → length (page_events p) ≤ events_per_page
unfolding page_events
length-page_events_le p = omega (arith, length-first (min events_per_page p.index) p.events)

dump_pages-drop :
    (n : ℕ) (ps : List Page) (p : Page) (full : AllFull ps) (within : p.index ≤ events_per_page)
    → dump_pages n (ps ++ p ∷ []) ≡ drop (n * events_per_page) (dump_pages 0 (ps ++ p ∷ []))
unfolding dump_pages
dump_pages-drop zero ps p full within = refl
dump_pages-drop (suc n) [] p full within =
    nothing_left n p
    ∙ sym (
        drop_all (suc n * events_per_page) (dump_pages 0 (p ∷ [])) (
          omega
            (arith, length-page_events_le p, ap (λ (t : List Event). length t) (dump_pages_one p))))
dump_pages-drop (suc n) (q ∷ ps) p (h, full) within =
    dump_pages-drop n ps p full within
    ∙ ap (drop (n * events_per_page)) (sym (drop_page q (dump_pages 0 (ps ++ p ∷ [])) h))
    ∙ drop-drop (n * events_per_page) events_per_page (dump_pages 0 (q ∷ ps ++ p ∷ []))
    ∙ ap (λ (m : ℕ). drop m (dump_pages 0 (q ∷ ps ++ p ∷ []))) (omega arith)

-- `dumpEntireLog` from a later page on skips that many times `EventsPerPage` events.
pub dump_entire_log-drop :
    (start_page : ℕ) (s : MemLog) (valid : IsValid s)
    → dump_entire_log start_page s ≡ drop (start_page * events_per_page) (dump_entire_log 0 s)
unfolding dump_entire_log
dump_entire_log-drop start_page s valid =
    dump_pages-drop start_page s.older s.tail valid.full valid.within
