-- ===== src/Trace/MemLog.antt =====
-- turf/impl/Trace_MemLog.h and turf/impl/Trace_MemLog.cpp, for one thread at a time: the pages with their
-- events. Each operation on the index of a page is taken not to overflow a signed word.
pub mod Pages
pub mod Dump
pub mod Sizes
pub mod Kept
pub mod Walk
pub mod Shared
mod Tests
use turf.Prelude.{
  ℕ, zero, suc, ◌+◌, ◌-◌, ◌*◌, min, ◌==◌, ltb, leb, if◌then◌else◌, List, [], ◌∷◌, ◌++◌,
}

pub record Event : Type 0 where
  pub tid : ℕ
  pub msg : ℕ
  pub param1 : ℕ
  pub param2 : ℕ

abbrev pub max_num_pages : ℕ
max_num_pages = 4

abbrev pub events_per_page : ℕ
events_per_page = 16384

pub record Page : Type 0 where
  pub index : ℕ
  pub events : ℕ → Event

-- `older` holds the pages from `m_head` up to the one before `m_tail`, each linked to the next.
pub record MemLog : Type 0 where
  pub older : List Page
  pub tail : Page
  pub num_pages : ℕ

-- What `Event()` sets; the thread is not set.
abbrev pub blank : Event
blank = record { tid = 0; msg = 0; param1 = 0; param2 = 0 }

abbrev pub new_page : Page
new_page = record { index = 0; events = λ i. blank }

abbrev pub init : MemLog
init = record { older = []; tail = new_page; num_pages = 1 }

-- `evt->tid = ...; evt->msg = ...; evt->param1 = ...; evt->param2 = ...`
abbrev pub put : ℕ → Event → Page → Page
put i e p = record p { events = λ j. if i == j then e else p.events j }

-- `m_head = oldHead->next; delete oldHead`
abbrev pub without_head : List Page → List Page
without_head [] = []
without_head (p ∷ ps) = ps

-- The part of `allocateEventFromNewPage` from `new Page` on.
pub add_page : Event → MemLog → MemLog
add_page e s =
    let new_tail = put 0 e (record new_page { index = 1 }) in
    let linked = s.older ++ s.tail ∷ [] in
    if leb max_num_pages s.num_pages
    then record { older = without_head linked; tail = new_tail; num_pages = s.num_pages }
    else record { older = linked; tail = new_tail; num_pages = s.num_pages + 1 }

pub allocate_event_from_new_page : Event → MemLog → MemLog
unfolding add_page
allocate_event_from_new_page e s =
    let index = s.tail.index in
    let bumped = record s { tail = record s.tail { index = index + 1 } } in
    if ltb index events_per_page
    then (if ltb index events_per_page
        then record bumped { tail = put index e bumped.tail }
        else add_page e bumped)
    else add_page e s

pub log : Event → MemLog → MemLog
unfolding allocate_event_from_new_page
log e s =
    let index = s.tail.index in
    let bumped = record s { tail = record s.tail { index = index + 1 } } in
    if ltb index events_per_page
    then record bumped { tail = put index e bumped.tail }
    else allocate_event_from_new_page e bumped

-- The first `n` events of a page.
pub first : ℕ → (ℕ → Event) → List Event
first zero events = []
first (suc n) events = first n events ++ events n ∷ []

-- The loop of `dumpEntireLog` on one page.
pub page_events : Page → List Event
unfolding first
page_events p = first (min events_per_page p.index) p.events

pub dump_pages : ℕ → List Page → List Event
unfolding page_events
dump_pages start [] = []
dump_pages zero (p ∷ ps) = page_events p ++ dump_pages zero ps
dump_pages (suc start) (p ∷ ps) = dump_pages start ps

pub dump_entire_log : ℕ → MemLog → List Event
unfolding dump_pages
dump_entire_log start_page s = dump_pages start_page (s.older ++ s.tail ∷ [])

pub dump_stats : MemLog → ℕ
dump_stats s = (s.num_pages - 1) * events_per_page + s.tail.index
