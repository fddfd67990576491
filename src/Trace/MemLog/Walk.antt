-- ===== src/Trace/MemLog/Walk.antt =====
-- `Trace_MemLog::Iterator`: a walk from `begin()` to `end()`.
pub mod Whole
use mathlib.Core.Option
use turf.Prelude.{
  ℕ, zero, suc, ◌+◌, ◌*◌, ◌-◌, min, ◌≤◌, ◌<◌, ◌==◌, leb, if◌then◌else◌, ◌≡◌, refl, sym, ap, ◌∙◌,
  List, [], ◌∷◌, ◌++◌, length, Option, none, some, Bool, true, false, ◌&&◌, not, Bool-cases, inl,
  inr, leb→le, append_assoc, arith,
}
use turf.Trace.MemLog.{
  Event, Page, MemLog, events_per_page, first, page_events, dump_pages, dump_stats, dump_entire_log,
}
use turf.Trace.MemLog.Pages.{AllFull, dump_pages_one}
use turf.Trace.MemLog.Dump.{IsValid}

-- `m_page` with the pages linked after it, and `m_index`.
pub record Iterator : Type 0 where
  pub page : Page
  pub following : List Page
  pub index : ℕ

-- `begin()`, with the list cut into the head and what follows it.
from_head : List Page → Page → Iterator
from_head [] tail = record { page = tail; following = []; index = 0 }
from_head (p ∷ ps) tail = record { page = p; following = ps ++ tail ∷ []; index = 0 }

pub begin : MemLog → Iterator
unfolding from_head
begin s = from_head s.older s.tail

pub end : MemLog → Iterator
end s = record { page = s.tail; following = []; index = s.tail.index }

-- `operator++`.
pub next : Iterator → Iterator
next it =
    let index = it.index + 1 in
    if leb events_per_page index
    then elim it.following [
      | [] ↦ record it { index = it.page.index }
      | p ∷ ps ↦ record { page = p; following = ps; index = 0 }
    ]
    else record it { index = index }

-- `operator!=`. Two pages of one log are the same page where as many follow them.
pub differs : Iterator → Iterator → Bool
differs a b = not ((length a.following == length b.following) && (a.index == b.index))

-- `operator*`.
abbrev pub event : Iterator → Event
event it = it.page.events it.index

-- `for (it = begin(); it != end(); ++it)` with the events that it reads; none when the steps run out.
pub walk : ℕ → Iterator → Iterator → Option (List Event)
unfolding next differs
walk zero it stop = if differs it stop then none else some []
walk (suc n) it stop =
    let rest = walk n (next it) stop in
    if differs it stop then Option.map (λ (es : List Event). event it ∷ es) rest else some []

-- The events of `n` slots from slot `i`.
from_slot : ℕ → ℕ → (ℕ → Event) → List Event
from_slot i zero f = []
from_slot i (suc n) f = f i ∷ from_slot (suc i) n f

append_out : List Event → Option (List Event) → Option (List Event)
append_out es o = Option.map (λ (t : List Event). es ++ t) o

from_slot_snoc :
    (i n : ℕ) (f : ℕ → Event) → from_slot i (suc n) f ≡ from_slot i n f ++ f (i + n) ∷ []
unfolding from_slot
from_slot_snoc i zero f = ap (λ (t : ℕ). f t ∷ []) (omega arith)
from_slot_snoc i (suc n) f =
    ap (λ (t : List Event). f i ∷ t)
      (from_slot_snoc (suc i) n f ∙ ap (λ (m : ℕ). from_slot (suc i) n f ++ f m ∷ []) (omega arith))

first-from_slot : (n : ℕ) (f : ℕ → Event) → first n f ≡ from_slot 0 n f
unfolding first from_slot
first-from_slot zero f = refl
first-from_slot (suc n) f =
    ap (λ (t : List Event). t ++ f n ∷ []) (first-from_slot n f)
    ∙ ap (λ (m : ℕ). from_slot 0 n f ++ f m ∷ []) (omega arith)
    ∙ sym (from_slot_snoc 0 n f)

append_out_twice :
    (es fs : List Event) (o : Option (List Event))
    → append_out es (append_out fs o) ≡ append_out (es ++ fs) o
unfolding append_out
append_out_twice es fs none = refl
append_out_twice es fs (some gs) = ap (λ (t : List Event). some t) (sym (append_assoc es fs gs))

lt→leb_false : (a b : ℕ) → a < b → leb b a ≡ false
lt→leb_false a b h = ground arith

le→leb : (a b : ℕ) → a ≤ b → leb a b ≡ true
le→leb a b h = ground arith

-- One round of the loop.
walk_round :
    (k : ℕ) (it after stop : Iterator) (going : differs it stop ≡ true) (moved : next it ≡ after)
    → walk (suc k) it stop ≡ append_out (event it ∷ []) (walk k after stop)
unfolding walk append_out
walk_round k it after stop going moved = rw (going, moved) refl

earlier_page :
    (a b : Iterator) (before : length b.following < length a.following) → differs a b ≡ true
unfolding differs
earlier_page a b before = ground arith

earlier_slot : (a b : Iterator) (before : a.index < b.index) → differs a b ≡ true
unfolding differs
earlier_slot a b before = ground arith

next_slot :
    (it : Iterator) (room : it.index + 1 < events_per_page)
    → next it ≡ record it { index = it.index + 1 }
unfolding next
next_slot it room = rw (lt→leb_false (it.index + 1) events_per_page room) refl

next_page :
    (p q : Page) (qs : List Page) (i : ℕ) (last : i + 1 ≡ events_per_page)
    → next (record { page = p; following = q ∷ qs; index = i })
      ≡ record { page = q; following = qs; index = 0 }
unfolding next
next_page p q qs i last = rw (le→leb events_per_page (i + 1) (omega (arith, last))) refl

-- The rest of a page that is full, with a page after it.
walk_full :
    (n m i : ℕ) (p q : Page) (qs : List Page) (stop : Iterator) (left : i + suc n ≡ events_per_page)
    (before : length stop.following < suc (length qs))
    → walk (suc n + m) (record { page = p; following = q ∷ qs; index = i }) stop
      ≡ append_out
          (from_slot i (suc n) p.events)
          (walk m (record { page = q; following = qs; index = 0 }) stop)
unfolding from_slot
walk_full zero m i p q qs stop left before =
    let here : Iterator = record { page = p; following = q ∷ qs; index = i } in
    let steps : suc zero + m ≡ suc m = omega arith in
    ap (λ (k : ℕ). walk k here stop) steps
    ∙ walk_round m here _ stop (earlier_page here stop before)
        (next_page p q qs i (omega (arith, left)))
walk_full (suc n) m i p q qs stop left before =
    let here : Iterator = record { page = p; following = q ∷ qs; index = i } in
    let steps : suc (suc n) + m ≡ suc (suc n + m) = omega arith in
    let there : i + 1 ≡ suc i = omega arith in
    ap (λ (k : ℕ). walk k here stop) steps
    ∙ walk_round (suc n + m) here _ stop (earlier_page here stop before) (
        next_slot here (omega (arith, left))
        ∙ ap (λ (k : ℕ). record { page = p; following = q ∷ qs; index = k }) there)
    ∙ ap (append_out (p.events i ∷ []))
        (walk_full n m (suc i) p q qs stop (omega (arith, left)) before)
    ∙ append_out_twice _ _ _

walk_done : (it stop : Iterator) (there : differs it stop ≡ false) → walk 0 it stop ≡ some []
unfolding walk
walk_done it stop there = rw there refl

same_place :
    (a b : Iterator) (pages : length a.following ≡ length b.following) (slots : a.index ≡ b.index)
    → differs a b ≡ false
unfolding differs
same_place a b pages slots = ground (arith, pages, slots)

next_in_last :
    (p : Page) (i : ℕ) (room : i < p.index) (within : p.index ≤ events_per_page)
    → next (record { page = p; following = []; index = i })
      ≡ record { page = p; following = []; index = suc i }
unfolding next
next_in_last p i room within = elim (Bool-cases (leb events_per_page (i + 1))) [
  | inl t ↦ rw t (ap at_index (omega (arith, leb→le events_per_page (i + 1) t)))
  | inr t ↦ rw t (ap at_index (omega arith))
]
  where
    at_index : ℕ → Iterator
    at_index k = record { page = p; following = []; index = k }

-- The rest of the last page.
walk_tail :
    (n i : ℕ) (p : Page) (left : i + n ≡ p.index) (within : p.index ≤ events_per_page)
    → walk n
        (record { page = p; following = []; index = i })
        (record { page = p; following = []; index = p.index })
      ≡ some (from_slot i n p.events)
unfolding from_slot append_out
walk_tail zero i p left within =
    let here : Iterator = record { page = p; following = []; index = i } in
    let stop : Iterator = record { page = p; following = []; index = p.index } in
    walk_done here stop (same_place here stop refl (omega (arith, left)))
walk_tail (suc n) i p left within =
    let here : Iterator = record { page = p; following = []; index = i } in
    let stop : Iterator = record { page = p; following = []; index = p.index } in
    walk_round n here _ stop (earlier_slot here stop (omega (arith, left)))
      (next_in_last p i (omega (arith, left)) within)
    ∙ ap (append_out (p.events i ∷ [])) (walk_tail n (suc i) p (omega (arith, left)) within)
