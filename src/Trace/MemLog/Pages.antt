-- ===== src/Trace/MemLog/Pages.antt =====
-- The events of one page and of a list of pages.
use turf.Prelude.{
  ℕ, zero, suc, ◌+◌, ◌*◌, ◌≤◌, ◌<◌, min, ◌==◌, if◌then◌else◌, ◌≡◌, refl, sym, ap, ap₂, ◌∙◌, List,
  [], ◌∷◌, ◌++◌, length, append_nil, append_assoc, length-append, arith,
}
use turf.Trace.MemLog.{Event, Page, events_per_page, new_page, put, first, page_events, dump_pages}

-- Every page of the list has been filled.
abbrev pub AllFull : List Page → Type 0
AllFull [] = Unit
AllFull (p ∷ ps) = (events_per_page ≤ p.index) × AllFull ps

pub length-first : (n : ℕ) (f : ℕ → Event) → length (first n f) ≡ n
unfolding first
length-first zero f = refl
length-first (suc n) f = length-append (first n f) (f n ∷ []) ∙ (omega (arith, length-first n f))

other_slot : (i j : ℕ) (e d : Event) (before : j < i) → (if i == j then e else d) ≡ d
other_slot i j e d before = ground arith

same_slot : (i : ℕ) (e d : Event) → (if i == i then e else d) ≡ e
same_slot i e d = ground arith

first-cong : (n : ℕ) (f g : ℕ → Event) (same : (j : ℕ) → j < n → f j ≡ g j) → first n f ≡ first n g
unfolding first
first-cong zero f g same = refl
first-cong (suc n) f g same =
    ap₂ (λ (a b : List Event). a ++ b) (first-cong n f g (λ j h. same j (omega arith)))
      (ap (λ (t : Event). t ∷ []) (same n (omega arith)))

pub length-page_events :
    (p : Page) (full : events_per_page ≤ p.index) → length (page_events p) ≡ events_per_page
unfolding page_events
length-page_events p full = length-first (min events_per_page p.index) p.events ∙ (omega arith)

-- Writing slot `i` of a page that holds `i` events appends one.
pub page_events-put :
    (e : Event) (p : Page) (room : p.index < events_per_page)
    → page_events (put p.index e (record p { index = p.index + 1 })) ≡ page_events p ++ e ∷ []
unfolding page_events first
page_events-put e p room =
    let i = p.index in
    let g = λ (j : ℕ). if i == j then e else p.events j in
    let at_new : min events_per_page (i + 1) ≡ suc i = omega arith in
    let at_old : min events_per_page i ≡ i = omega arith in
    let kept : first i g ≡ first i p.events =
      first-cong i g p.events (λ j h. other_slot i j e (p.events j) h) in
    let written : g i ≡ e = same_slot i e (p.events i) in
    ap (λ (n : ℕ). first n g) at_new
    ∙ ap₂ (λ (a : List Event) (b : Event). a ++ b ∷ []) kept written
    ∙ ap (λ (n : ℕ). first n p.events ++ e ∷ []) (sym at_old)

-- The page that `allocateEventFromNewPage` adds holds the one event.
pub page_events-new : (e : Event) → page_events (put 0 e (record new_page { index = 1 })) ≡ e ∷ []
unfolding page_events first
page_events-new e = refl

pub dump_pages-append :
    (ps qs : List Page) → dump_pages 0 (ps ++ qs) ≡ dump_pages 0 ps ++ dump_pages 0 qs
unfolding dump_pages
dump_pages-append [] qs = refl
dump_pages-append (p ∷ ps) qs =
    ap (λ (t : List Event). page_events p ++ t) (dump_pages-append ps qs)
    ∙ sym (append_assoc (page_events p) (dump_pages 0 ps) (dump_pages 0 qs))

pub dump_pages_one : (p : Page) → dump_pages 0 (p ∷ []) ≡ page_events p
unfolding dump_pages
dump_pages_one p = append_nil (page_events p)

pub length-dump_pages :
    (ps : List Page) (full : AllFull ps) → length (dump_pages 0 ps) ≡ length ps * events_per_page
unfolding dump_pages
length-dump_pages [] full = refl
length-dump_pages (p ∷ ps) (h, full) =
    length-append (page_events p) (dump_pages 0 ps)
    ∙ (omega (arith, length-page_events p h, length-dump_pages ps full))

pub AllFull-append :
    (ps : List Page) (p : Page) → AllFull ps → events_per_page ≤ p.index → AllFull (ps ++ p ∷ [])
AllFull-append [] p full h = (h, tt)
AllFull-append (q ∷ ps) p (hq, full) h = (hq, AllFull-append ps p full h)
