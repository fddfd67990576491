-- ===== src/Trace/MemLog/Dump.antt =====
-- What the dump of a log is after one more event.
use turf.Prelude.{
  ℕ, suc, ◌+◌, ◌≤◌, ◌<◌, min, ltb, leb, if◌then◌else◌, Bool-cases, false, inl, inr, ltb→lt, lt→ltb,
  ◌≡◌, refl, sym, ap, ap₂, ◌∙◌, List, [], ◌∷◌, ◌++◌, length, drop, append_assoc, length-append,
  drop-append_length, arith,
}
use turf.Trace.MemLog.{
  Event, Page, MemLog, max_num_pages, events_per_page, new_page, put, without_head, first,
  page_events, add_page, allocate_event_from_new_page, log, dump_pages, dump_entire_log,
}
use turf.Trace.MemLog.Pages.{
  AllFull, length-page_events, page_events-put, page_events-new, dump_pages-append, dump_pages_one,
  AllFull-append,
}

-- Between two calls: `m_numPages` counts the pages, there are at most `MaxNumPages`, and all but
-- the last are full.
pub record IsValid (s : MemLog) : Type 0 where
  pub counted : s.num_pages ≡ suc (length s.older)
  pub few : s.num_pages ≤ max_num_pages
  pub full : AllFull s.older
  pub within : s.tail.index ≤ events_per_page

-- How many events the next call deletes: a page when the last of `MaxNumPages` is full.
abbrev pub lost : MemLog → ℕ
lost s =
    if ltb s.tail.index events_per_page
    then 0
    else (if leb max_num_pages s.num_pages then events_per_page else 0)

pub dump_entire_log_lem :
    (s : MemLog) → dump_entire_log 0 s ≡ dump_pages 0 s.older ++ page_events s.tail
unfolding dump_entire_log
dump_entire_log_lem s =
    dump_pages-append s.older (s.tail ∷ [])
    ∙ ap (λ (t : List Event). dump_pages 0 s.older ++ t) (dump_pages_one s.tail)

ltb_false→le : (a b : ℕ) → ltb a b ≡ false → b ≤ a
ltb_false→le a b h = ground arith

le→ltb_false : (a b : ℕ) → a ≤ b → ltb b a ≡ false
le→ltb_false a b h = ground arith

pub drop_page :
    (p : Page) (es : List Event) (full : events_per_page ≤ p.index)
    → drop events_per_page (page_events p ++ es) ≡ es
drop_page p es full =
    ap (λ (n : ℕ). drop n (page_events p ++ es)) (sym (length-page_events p full))
    ∙ drop-append_length (page_events p) es

leb_false→lt : (a b : ℕ) → leb a b ≡ false → b < a
leb_false→lt a b h = ground arith

length-without_head : (ps : List Page) (p : Page) → length (without_head (ps ++ p ∷ [])) ≡ length ps
length-without_head [] p = refl
length-without_head (q ∷ ps) p = omega (arith, length-append ps (p ∷ []))

AllFull-without_head : (ps : List Page) (full : AllFull ps) → AllFull (without_head ps)
AllFull-without_head [] full = full
AllFull-without_head (p ∷ ps) (h, full) = full

bump : MemLog → MemLog
bump s = record s { tail = record s.tail { index = s.tail.index + 1 } }

log_with_room :
    (e : Event) (s : MemLog) (room : s.tail.index < events_per_page)
    → log e s ≡ record s { tail = put s.tail.index e (record s.tail { index = s.tail.index + 1 }) }
unfolding log
log_with_room e s room = rw (lt→ltb s.tail.index events_per_page room) refl

log_when_full :
    (e : Event) (s : MemLog) (full : events_per_page ≤ s.tail.index) → log e s ≡ add_page e (bump s)
unfolding log allocate_event_from_new_page bump
log_when_full e s full =
    rw
      (
        le→ltb_false events_per_page s.tail.index full,
        le→ltb_false events_per_page (s.tail.index + 1) (omega arith),
      )
      refl

-- The pages that `add_page` leaves, before the new one.
dump-without_head :
    (ps : List Page) (p : Page) (full : AllFull (ps ++ p ∷ []))
    → dump_pages 0 (without_head (ps ++ p ∷ []))
      ≡ drop events_per_page (dump_pages 0 (ps ++ p ∷ []))
unfolding dump_pages
dump-without_head [] p (h, full) = sym (drop_page p [] h)
dump-without_head (q ∷ ps) p (h, full) = sym (drop_page q (dump_pages 0 (ps ++ p ∷ [])) h)

-- `add_page` on a full log: the new page's one event follows what is kept.
dump-add_page :
    (e : Event) (s : MemLog) (full : AllFull (s.older ++ s.tail ∷ []))
    → dump_entire_log 0 (add_page e s)
      ≡ drop
          (if leb max_num_pages s.num_pages then events_per_page else 0)
          (dump_pages 0 (s.older ++ s.tail ∷ []))
        ++ e ∷ []
unfolding add_page
dump-add_page e s full =
    let linked = s.older ++ s.tail ∷ [] in
    let last : page_events (put 0 e (record new_page { index = 1 })) ≡ e ∷ [] = page_events-new e in
    elim (Bool-cases (leb max_num_pages s.num_pages)) [
      | inl t ↦ rw t (
          dump_entire_log_lem _
          ∙ ap₂ (λ (a b : List Event). a ++ b) (dump-without_head s.older s.tail full) last)
      | inr t ↦
          rw t (dump_entire_log_lem _ ∙ ap (λ (b : List Event). dump_pages 0 linked ++ b) last)
    ]

full_bumped :
    (s : MemLog) (valid : IsValid s) (full : events_per_page ≤ s.tail.index)
    → AllFull (s.older ++ (bump s).tail ∷ [])
unfolding bump
full_bumped s valid full = AllFull-append s.older _ valid.full (omega (arith, full))

dump-bump :
    (s : MemLog) (full : events_per_page ≤ s.tail.index)
    → dump_pages 0 (s.older ++ (bump s).tail ∷ []) ≡ dump_entire_log 0 s
unfolding bump page_events
dump-bump s full =
    let same : min events_per_page (s.tail.index + 1) ≡ min events_per_page s.tail.index =
      omega (arith, full) in
    dump_pages-append s.older _
    ∙ ap (λ (b : List Event). dump_pages 0 s.older ++ b)
        (dump_pages_one _ ∙ ap (λ (n : ℕ). first n s.tail.events) same)
    ∙ sym (dump_entire_log_lem s)

dump-log_with_room :
    (e : Event) (s : MemLog) (room : s.tail.index < events_per_page)
    → dump_entire_log 0 (log e s) ≡ dump_entire_log 0 s ++ e ∷ []
dump-log_with_room e s room =
    ap (dump_entire_log 0) (log_with_room e s room)
    ∙ dump_entire_log_lem _
    ∙ ap (λ (b : List Event). dump_pages 0 s.older ++ b) (page_events-put e s.tail room)
    ∙ sym (append_assoc (dump_pages 0 s.older) (page_events s.tail) (e ∷ []))
    ∙ ap (λ (b : List Event). b ++ e ∷ []) (sym (dump_entire_log_lem s))

dump-log_when_full :
    (e : Event) (s : MemLog) (valid : IsValid s) (full : events_per_page ≤ s.tail.index)
    → dump_entire_log 0 (log e s)
      ≡ drop (if leb max_num_pages s.num_pages then events_per_page else 0) (dump_entire_log 0 s)
        ++ e ∷ []
unfolding bump
dump-log_when_full e s valid full =
    let gone = if leb max_num_pages s.num_pages then events_per_page else 0 in
    ap (dump_entire_log 0) (log_when_full e s full)
    ∙ dump-add_page e (bump s) (full_bumped s valid full)
    ∙ ap (λ (t : List Event). drop gone t ++ e ∷ []) (dump-bump s full)

-- Logging one event between two calls: the dump loses what `lost` says from its front, a whole page
-- or nothing, and gains the event at its end.
pub dump_entire_log-log :
    (e : Event) (s : MemLog) (valid : IsValid s)
    → dump_entire_log 0 (log e s) ≡ drop (lost s) (dump_entire_log 0 s) ++ e ∷ []
dump_entire_log-log e s valid = elim (Bool-cases (ltb s.tail.index events_per_page)) [
  | inl t ↦ rw t (dump-log_with_room e s (ltb→lt s.tail.index events_per_page t))
  | inr t ↦ rw t (dump-log_when_full e s valid (ltb_false→le s.tail.index events_per_page t))
]

add_page-IsValid :
    (e : Event) (s : MemLog) (counted : s.num_pages ≡ suc (length s.older))
    (few : s.num_pages ≤ max_num_pages) (full : AllFull (s.older ++ s.tail ∷ []))
    → IsValid (add_page e s)
unfolding add_page
add_page-IsValid e s counted few full =
    let linked = s.older ++ s.tail ∷ [] in
    let more : length linked ≡ suc (length s.older) =
      omega (arith, length-append s.older (s.tail ∷ [])) in
    elim (Bool-cases (leb max_num_pages s.num_pages)) [
      | inl t ↦ rw t (record {
        counted = omega (arith, counted, length-without_head s.older s.tail);
        few = few;
        full = AllFull-without_head linked full;
        within = omega arith;
      })
      | inr t ↦ rw t (record {
        counted = omega (arith, counted, more);
        few = omega (arith, leb_false→lt max_num_pages s.num_pages t);
        full = full;
        within = omega arith;
      })
    ]

pub log-IsValid : (e : Event) (s : MemLog) (valid : IsValid s) → IsValid (log e s)
unfolding bump
log-IsValid e s valid = elim (Bool-cases (ltb s.tail.index events_per_page)) [
  | inl t ↦ rw (log_with_room e s (ltb→lt s.tail.index events_per_page t)) (record {
    counted = valid.counted;
    few = valid.few;
    full = valid.full;
    within = omega (arith, ltb→lt s.tail.index events_per_page t);
  })
  | inr t ↦ rw (log_when_full e s (ltb_false→le s.tail.index events_per_page t)) (
      add_page-IsValid e (bump s) valid.counted valid.few
        (full_bumped s valid (ltb_false→le s.tail.index events_per_page t)))
]
