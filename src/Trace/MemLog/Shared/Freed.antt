-- ===== src/Trace/MemLog/Shared/Freed.antt =====
-- A thread held up between its load of `m_tail` and its `fetchAdd`, while another one logs.
use turf.Prelude.{
  ℕ, zero, suc, ◌+◌, ◌-◌, ◌≤◌, ◌<◌, ◌≡◌, ◌≢◌, refl, sym, ◌∙◌, update, none, some, dec_lt, arith,
}
use turf.Trace.MemLog.{events_per_page, max_num_pages}
use turf.Trace.MemLog.Shared.{
  Pc, outside, loading, adding, locking, checking, storing_tail, counting, unlocking, writing,
  System, at, bump, Turn, call, loaded, got_slot, was_full, locked, has_none, store_tail,
  delete_head, count_page, unlock, write, Reach, here, next, init,
}
use mathlib.Core.Path.{subst}

step :
    {s t : System} (j : ℕ) (p : Pc) (r : Reach s) (is_at : s.pc j ≡ p) (turn : Turn s j p t)
    → Reach t
step {s} {t} j p r is_at turn = next j r (subst (λ q. Turn s j q t) (sym is_at) turn)

here_now : (pc : ℕ → Pc) (j : ℕ) (p : Pc) → update pc j p j ≡ p
here_now pc j p = ground arith

-- Thread `i` has loaded page 0, thread `j` is outside, and the last page holds `k` events.
record HeldUp (s : System) (i j k : ℕ) : Type 0 where
  held : s.pc i ≡ adding 0
  idle : s.pc j ≡ outside
  free : s.owner ≡ none
  used : s.index s.tail ≡ k
  live : s.head ≤ s.tail

-- One call on a page that is not full.
log_one :
    (s : System) (i j k : ℕ) (r : Reach s) (ne : i ≢ j) (h : HeldUp s i j k)
    (room : k < events_per_page)
    → (t : System) × Reach t
      × HeldUp t i j (k + 1)
      × (t.tail ≡ s.tail)
      × (t.head ≡ s.head)
      × (t.num_pages ≡ s.num_pages)
log_one s i j k r ne h room =
    let p = s.tail in
    let a = at s j loading in
    let ra : Reach a = step j outside r h.idle call in
    let b = at a j (adding p) in
    let rb : Reach b = step j loading ra (here_now s.pc j loading) loaded in
    let c = at (bump b p) j (writing p (b.index p)) in
    let rc : Reach c =
      step j (adding p) rb (here_now a.pc j (adding p))
        (got_slot p h.live (omega (arith, h.used, room))) in
    (
      _,
      step j (writing p (b.index p)) rc (here_now b.pc j _) (write p (b.index p) h.live),
      record {
        held = ground (arith, h.held, ne);
        idle = ground arith;
        free = h.free;
        used = ground (arith, h.used);
        live = h.live;
      },
      refl,
      refl,
      refl,
    )

-- The call of a thread that finds the page full, up to the store to `m_tail`.
linked_page :
    (s : System) (i j : ℕ) (r : Reach s) (ne : i ≢ j) (h : HeldUp s i j events_per_page)
    → (t : System) × Reach t
      × (t.pc i ≡ adding 0)
      × (t.pc j ≡ counting (s.tail + 1))
      × (t.index t.tail ≡ 1)
      × (t.tail ≡ s.tail + 1)
      × (t.head ≡ s.head)
      × (t.num_pages ≡ s.num_pages)
linked_page s i j r ne h =
    let p = s.tail in
    let a = at s j loading in
    let ra : Reach a = step j outside r h.idle call in
    let b = at a j (adding p) in
    let rb : Reach b = step j loading ra (here_now s.pc j loading) loaded in
    let c = at (bump b p) j locking in
    let rc : Reach c =
      step j (adding p) rb (here_now a.pc j (adding p))
        (was_full p h.live (omega (arith, h.used))) in
    let d : System = record (at c j checking) { owner = some j } in
    let rd : Reach d = step j locking rc (here_now b.pc j locking) (locked h.free) in
    let e = at d j storing_tail in
    let full : events_per_page ≤ d.index d.tail = ground (arith, h.used) in
    let re : Reach e = step j checking rd (here_now c.pc j checking) (has_none full) in
    (
      _,
      step j storing_tail re (here_now d.pc j storing_tail) store_tail,
      ground (arith, h.held, ne),
      ground arith,
      ground arith,
      refl,
      refl,
      refl,
    )

-- The end of that call, once the page is counted.
write_last :
    (s : System) (i j p head num_pages : ℕ) (ne : i ≢ j) (held : s.pc i ≡ adding 0)
    (one : s.index s.tail ≡ 1) (last : p ≡ s.tail) (live : head ≤ p)
    (r : Reach (record (at s j (unlocking p 0)) { head = head; num_pages = num_pages }))
    → (t : System) × Reach t × HeldUp t i j 1 × (t.head ≡ head) × (t.num_pages ≡ num_pages)
write_last s i j p head num_pages ne held one last live r =
    let a : System = record (at s j (unlocking p 0)) { head = head; num_pages = num_pages } in
    let b : System = record (at a j (writing p 0)) { owner = none } in
    let rb : Reach b = step j (unlocking p 0) r (here_now s.pc j (unlocking p 0)) (unlock p 0) in
    (
      _,
      step j (writing p 0) rb (here_now a.pc j (writing p 0)) (write p 0 live),
      record {
        held = ground (arith, held, ne);
        idle = ground arith;
        free = refl;
        used = one;
        live = omega (arith, live, last);
      },
      refl,
      refl,
    )

-- One call on a full page, which makes a page and, from the fourth on, frees one.
log_over :
    (s : System) (i j : ℕ) (r : Reach s) (ne : i ≢ j) (h : HeldUp s i j events_per_page)
    (few : s.num_pages ≤ max_num_pages)
    → (t : System) × Reach t
      × HeldUp t i j 1
      × (t.head + t.num_pages ≡ s.head + s.num_pages + 1)
      × (t.num_pages ≤ max_num_pages)
log_over s i j r ne h few =
    let (a, ra, held, at_count, one, same_tail, same_head, same_count) = linked_page s i j r ne h in
    let p = s.tail + 1 in
    elim (dec_lt a.num_pages max_num_pages) [
      | yes less ↦
          let (t, rt, ht, eh, ec) =
            write_last a i j p a.head (a.num_pages + 1) ne held one (sym same_tail)
              (omega (arith, h.live, same_head))
              (step j (counting p) ra at_count (count_page p less)) in
          (t, rt, ht, omega (arith, eh, ec, same_head, same_count), omega (arith, ec, less))
      | no many ↦
          let (t, rt, ht, eh, ec) =
            write_last a i j p (a.head + 1) a.num_pages ne held one (sym same_tail)
              (omega (arith, h.live, same_head))
              (step j (counting p) ra at_count (delete_head p (omega (arith, many)))) in
          (
            t,
            rt,
            ht,
            omega (arith, eh, ec, same_head, same_count),
            omega (arith, ec, few, same_count),
          )
    ]

fill :
    (m k : ℕ) (s : System) (i j : ℕ) (r : Reach s) (ne : i ≢ j) (h : HeldUp s i j k)
    (left : k + m ≡ events_per_page)
    → (t : System) × Reach t
      × HeldUp t i j events_per_page
      × (t.head ≡ s.head)
      × (t.num_pages ≡ s.num_pages)
fill zero k s i j r ne h left =
    let full : k ≡ events_per_page = omega (arith, left) in
    (s, r, subst (λ n. HeldUp s i j n) full h, refl, refl)
fill (suc m) k s i j r ne h left =
    let (a, ra, ha, same_tail, same_head, same_count) =
      log_one s i j k r ne h (omega (arith, left)) in
    let (t, rt, ht, eh, ec) = fill m (k + 1) a i j ra ne ha (omega (arith, left)) in
    (t, rt, ht, eh ∙ same_head, ec ∙ same_count)

-- The other thread fills the last page and starts a new one.
turn_page :
    (k m : ℕ) (s : System) (i j : ℕ) (r : Reach s) (ne : i ≢ j) (h : HeldUp s i j k)
    (left : k + m ≡ events_per_page) (few : s.num_pages ≤ max_num_pages)
    → (t : System) × Reach t
      × HeldUp t i j 1
      × (t.head + t.num_pages ≡ s.head + s.num_pages + 1)
      × (t.num_pages ≤ max_num_pages)
turn_page k m s i j r ne h left few =
    let (a, ra, ha, same_head, same_count) = fill m k s i j r ne h left in
    let (t, rt, ht, more, few') = log_over a i j ra ne ha (omega (arith, few, same_count)) in
    (t, rt, ht, omega (arith, more, same_head, same_count), few')

start_held :
    (i j : ℕ) (ne : i ≢ j)
    → (s : System) × Reach s × HeldUp s i j 0 × (s.head ≡ 0) × (s.num_pages ≡ 1)
start_held i j ne =
    let a = at init i loading in
    let ra : Reach a = step i outside here refl call in
    (
      _,
      step i loading ra (here_now init.pc i loading) loaded,
      record {
        held = ground arith;
        idle = ground (arith, ne);
        free = refl;
        used = refl;
        live = omega arith;
      },
      refl,
      refl,
    )

-- Whichever the two threads, a state can be reached in which one is about to do its `fetchAdd` on
-- page 0, which the other has freed: `m_head` is a later page.
pub freed_page_used :
    (i j : ℕ) → i ≢ j → (s : System) × Reach s × (s.pc i ≡ adding 0) × (0 < s.head)
freed_page_used i j ne =
    let (a, ra, ha, head, count) = start_held i j ne in
    let (b, rb, hb, eb, fb) =
      turn_page 0 events_per_page a i j ra ne ha (omega arith) (omega (arith, count)) in
    let (c, rc, hc, ec, fc) = turn_page 1 (events_per_page - 1) b i j rb ne hb (omega arith) fb in
    let (d, rd, hd, ed, fd) = turn_page 1 (events_per_page - 1) c i j rc ne hc (omega arith) fc in
    let (e, re, he, ee, fe) = turn_page 1 (events_per_page - 1) d i j rd ne hd (omega arith) fd in
    (e, re, he.held, omega (arith, head, count, eb, ec, ed, ee, fe))
