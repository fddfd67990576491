-- ===== src/Trace/MemLog/Kept.antt =====
-- A run of `log` against the list of the events that it was called with.
use turf.Prelude.{
  ℕ, suc, ◌+◌, ◌-◌, ◌*◌, ◌≤◌, ◌<◌, ◌≡◌, refl, sym, ap, ◌∙◌, ◌⊎◌, inl, inr, List, [], ◌∷◌, ◌++◌,
  length, drop, append_assoc, append_nil, length-append, drop-append_le, drop-drop, length-drop,
  arith,
}
use mathlib.Core.Path.{subst}
use turf.Trace.MemLog.{
  Event, MemLog, max_num_pages, events_per_page, log, dump_entire_log, dump_stats, init,
}
use turf.Trace.MemLog.Dump.{IsValid, lost, dump_entire_log-log, log-IsValid}
use turf.Trace.MemLog.Sizes.{dump_stats-length}

-- `log` for each event in turn.
pub log_all : List Event → MemLog → MemLog
log_all [] s = s
log_all (e ∷ es) s = log_all es (log e s)

-- `out` is what is left of `es` when whole pages are lost from the front: at most `MaxNumPages`
-- pages are left, and more than one page less where any was lost.
pub record IsRecent (es out : List Event) : Type 0 where
  pub lost_pages : ℕ
  pub suffix : out ≡ drop (lost_pages * events_per_page) es
  pub known : lost_pages * events_per_page ≤ length es
  pub small : length out ≤ max_num_pages * events_per_page
  pub enough : (lost_pages ≡ 0) ⊎ ((max_num_pages - 1) * events_per_page < length out)

length-dump_le :
    (s : MemLog) (valid : IsValid s)
    → length (dump_entire_log 0 s) ≤ max_num_pages * events_per_page
unfolding dump_stats
length-dump_le s valid =
    omega (arith, dump_stats-length s valid, valid.few, valid.counted, valid.within)

-- Where a page is lost, the log was full.
length_when_lost :
    (s : MemLog) (valid : IsValid s)
    → (lost s ≡ 0)
      ⊎ ((lost s ≡ events_per_page)
          × (length (dump_entire_log 0 s) ≡ max_num_pages * events_per_page))
unfolding dump_stats
length_when_lost s valid =
    ground (arith, dump_stats-length s valid, valid.few, valid.counted, valid.within)

-- One more event where no page is lost.
grown :
    (k : ℕ) (e : Event) (es out : List Event) (known : k ≤ length es) (suffix : out ≡ drop k es)
    → out ++ e ∷ [] ≡ drop k (es ++ e ∷ [])
grown k e es out known suffix =
    ap (λ (t : List Event). t ++ e ∷ []) suffix ∙ sym (drop-append_le k es (e ∷ []) known)

length_suffix :
    (k : ℕ) (es out : List Event) (suffix : out ≡ drop k es) → length out ≡ length es - k
length_suffix k es out suffix = ap (λ (t : List Event). length t) suffix ∙ length-drop k es

log-IsRecent :
    (e : Event) (es : List Event) (s : MemLog) (valid : IsValid s)
    (recent : IsRecent es (dump_entire_log 0 s))
    → IsRecent (es ++ e ∷ []) (dump_entire_log 0 (log e s))
log-IsRecent e es s valid recent =
    let k = recent.lost_pages in
    let out = dump_entire_log 0 s in
    let step = dump_entire_log-log e s valid in
    let small = length-dump_le (log e s) (log-IsValid e s valid) in
    let longer : length (es ++ e ∷ []) ≡ length es + 1 = length-append es (e ∷ []) in
    let all : length out ≡ length es - k * events_per_page =
      length_suffix (k * events_per_page) es out recent.suffix in
    elim (length_when_lost s valid) [
      | inl none_lost ↦
          let kept : dump_entire_log 0 (log e s) ≡ out ++ e ∷ [] =
            step ∙ ap (λ (n : ℕ). drop n out ++ e ∷ []) none_lost in
          let size : length (dump_entire_log 0 (log e s)) ≡ length out + 1 =
            ap (λ (t : List Event). length t) kept ∙ length-append out (e ∷ []) in
          record {
            lost_pages = k;
            suffix = kept ∙ grown (k * events_per_page) e es out recent.known recent.suffix;
            known = omega (arith, recent.known, longer);
            small = small;
            enough = elim recent.enough [ inl z ↦ inl z | inr h ↦ inr (omega (arith, h, size)) ];
          }
      | inr (page_lost, was_full) ↦
          let left = drop events_per_page out in
          let kept : dump_entire_log 0 (log e s) ≡ left ++ e ∷ [] =
            step ∙ ap (λ (n : ℕ). drop n out ++ e ∷ []) page_lost in
          let further : left ≡ drop (suc k * events_per_page) es =
            ap (drop events_per_page) recent.suffix
            ∙ drop-drop events_per_page (k * events_per_page) es
            ∙ ap (λ (n : ℕ). drop n es) (omega arith) in
          let size : length (dump_entire_log 0 (log e s)) ≡ length left + 1 =
            ap (λ (t : List Event). length t) kept ∙ length-append left (e ∷ []) in
          let known : suc k * events_per_page ≤ length es =
            omega (arith, all, was_full, recent.known) in
          record {
            lost_pages = suc k;
            suffix = kept ∙ grown (suc k * events_per_page) e es left known further;
            known = omega (arith, known, longer);
            small = small;
            enough = inr (omega (arith, size, was_full, length-drop events_per_page out));
          }
    ]

log_all-Recent :
    (es done : List Event) (s : MemLog) (valid : IsValid s)
    (recent : IsRecent done (dump_entire_log 0 s))
    → IsRecent (done ++ es) (dump_entire_log 0 (log_all es s))
unfolding log_all
log_all-Recent [] done s valid recent =
    subst (λ t. IsRecent t (dump_entire_log 0 s)) (sym (append_nil done)) recent
log_all-Recent (e ∷ es) done s valid recent =
    subst (λ t. IsRecent t (dump_entire_log 0 (log_all es (log e s))))
      (append_assoc done (e ∷ []) es)
      (log_all-Recent es (done ++ e ∷ []) (log e s) (log-IsValid e s valid)
        (log-IsRecent e done s valid recent))

init-IsValid : IsValid init
init-IsValid = record { counted = refl; few = omega arith; full = tt; within = omega arith }

init-IsRecent : IsRecent [] (dump_entire_log 0 init)
unfolding dump_entire_log
init-IsRecent = record {
  lost_pages = 0;
  suffix = refl;
  known = omega arith;
  small = omega arith;
  enough = inl refl;
}

-- After any sequence of calls of `log` on a new log, by one thread, the dump is the events in the
-- order of the calls, without a number of whole pages of the oldest: at most four pages of events
-- are left, and more than three pages of them where any was lost.
pub log_all-IsRecent : (es : List Event) → IsRecent es (dump_entire_log 0 (log_all es init))
log_all-IsRecent es = log_all-Recent es [] init init-IsValid init-IsRecent
