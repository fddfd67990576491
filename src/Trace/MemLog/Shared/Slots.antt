-- ===== src/Trace/MemLog/Shared/Slots.antt =====
-- Which thread has which slot.
use turf.Prelude.{
  ℕ, ◌+◌, ◌≤◌, ◌<◌, ◌≡◌, ◌⊎◌, inl, inr, Bool-cases, refl, update, ◌==◌, ◌&&◌, Bool, true, false,
  Option, none, some, arith,
}
use turf.Trace.MemLog.{events_per_page}
use turf.Trace.MemLog.Shared.{
  Pc, outside, loading, adding, locking, checking, adding_last, storing_tail, counting, unlocking,
  writing, System, at, bump, Turn, call, loaded, got_slot, was_full, stale_slot, stale_full, locked,
  has_room, has_none, got_last, filled, store_tail, delete_head, count_page, unlock, write,
  stale_write, Reach, here, next,
}

-- The slot that a thread has reserved.
abbrev has : Pc → ℕ → ℕ → Bool
has (counting q) p k = (q == p) && (k == 0)
has (unlocking q m) p k = (q == p) && (m == k)
has (writing q m) p k = (q == p) && (m == k)
has pc p k = false

-- The page that a thread is about to add to.
abbrev on_page : Pc → ℕ → Bool
on_page (adding q) p = q == p
on_page (adding_last q) p = q == p
on_page pc p = false

record Inv (s : System) : Type 0 where
  known : (j p : ℕ) → on_page (s.pc j) p ≡ true → p ≤ s.tail
  below :
      (j p k : ℕ) → has (s.pc j) p k ≡ true → (k < s.index p) × (k < events_per_page) × (p ≤ s.tail)
  past : (p k : ℕ) → s.written p k ≡ true → (k < s.index p) × (p ≤ s.tail)
  fresh : (j p k : ℕ) → has (s.pc j) p k ≡ true → s.written p k ≡ false
  alone : (i j p k : ℕ) → has (s.pc i) p k ≡ true → has (s.pc j) p k ≡ true → i ≡ j

-- A step that moves one thread, which keeps its slot or has none, to a page that is known.
moved :
    (s : System) (i : ℕ) (p q : Pc) (was : s.pc i ≡ p) (inv : Inv s)
    (slots : (a k : ℕ) → has q a k ≡ true → has p a k ≡ true)
    (pages : (a : ℕ) → on_page q a ≡ true → a ≤ s.tail) (head num_pages : ℕ) (owner : Option ℕ)
    → Inv (record (at s i q) { head = head; num_pages = num_pages; owner = owner })
moved s i p q was inv slots pages head num_pages owner = record {
  known = λ j a h. ground (arith, inv.known j a, pages a, h);
  below = λ j a k h. ground (arith, inv.below j a k, slots a k, was, h);
  past = inv.past;
  fresh = λ j a k h. ground (arith, inv.fresh j a k, slots a k, was, h);
  alone = λ j l a k hj hl. ground (arith, inv.alone j l a k, slots a k, was, hj, hl);
}

-- `fetchAdd` on a page.
bumped : (s : System) (p : ℕ) (inv : Inv s) → Inv (bump s p)
bumped s p inv = record {
  known = inv.known;
  below = λ j a k h. ground (arith, inv.below j a k h);
  past = λ a k h. ground (arith, inv.past a k h);
  fresh = inv.fresh;
  alone = inv.alone;
}

unwritten :
    (s : System) (inv : Inv s) (p k : ℕ) (out : (s.index p ≤ k) ⊎ (s.tail < p))
    → s.written p k ≡ false
unwritten s inv p k out = elim (Bool-cases (s.written p k)) [
  | inl t ↦ absurd (elim out [
    | inl h ↦ omega (arith, h, (inv.past p k t).0)
    | inr h ↦ omega (arith, h, (inv.past p k t).1)
  ])
  | inr f ↦ f
]

-- `fetchAdd` that returns a free slot, which the thread has from then on.
took :
    (s : System) (i p : ℕ) (q : Pc) (inv : Inv s) (room : s.index p < events_per_page)
    (page : p ≤ s.tail) (slots : (a k : ℕ) → has q a k ≡ true → (a ≡ p) × (k ≡ s.index p))
    (pages : (a : ℕ) → on_page q a ≡ false)
    → Inv (at (bump s p) i q)
took s i p q inv room page slots pages = record {
  known = λ j a h. ground (arith, inv.known j a, pages a, h);
  below = λ j a k h. ground (arith, inv.below j a k, slots a k, room, page, h);
  past = λ a k h. ground (arith, inv.past a k h);
  fresh = λ j a k h.
      ground
        (arith, inv.fresh j a k, slots a k, unwritten s inv p (s.index p) (inl (omega arith)), h);
  alone = λ j l a k hj hl.
      ground (arith, inv.alone j l a k, slots a k, inv.below j a k, inv.below l a k, hj, hl);
}

-- The store to `m_tail`: slot 0 of the new page is the thread's.
extended :
    (s : System) (i : ℕ) (inv : Inv s)
    → Inv (record (at s i (counting (s.tail + 1))) {
      tail = s.tail + 1;
      index = update s.index (s.tail + 1) 1;
    })
extended s i inv = record {
  known = λ j a h. ground (arith, inv.known j a, h);
  below = λ j a k h. ground (arith, inv.below j a k, h);
  past = λ a k h. ground (arith, inv.past a k h);
  fresh = λ j a k h.
      ground (arith, inv.fresh j a k, unwritten s inv (s.tail + 1) 0 (inr (omega arith)), h);
  alone =
      λ j l a k hj hl. ground (arith, inv.alone j l a k, inv.below j a k, inv.below l a k, hj, hl);
}

-- The stores to a slot.
stored :
    (s : System) (i p k : ℕ) (was : s.pc i ≡ writing p k) (inv : Inv s)
    → Inv (record (at s i outside) { written = update s.written p (update (s.written p) k true) })
stored s i p k was inv =
    let own = inv.below i p k (ground (arith, was)) in
    record {
      known = λ j a h. ground (arith, inv.known j a, h);
      below = λ j a m h. ground (arith, inv.below j a m, h);
      past = λ a m h. ground (arith, inv.past a m, own, h);
      fresh = λ j a m h. ground (arith, inv.fresh j a m, inv.alone i j p k, was, h);
      alone = λ j l a m hj hl. ground (arith, inv.alone j l a m, hj, hl);
    }

Turn-Inv :
    {s : System} (i : ℕ) {p : Pc} {t : System}
    → Turn s i p t
    → s.pc i ≡ p
    → (s.stale ≡ false → Inv s)
    → t.stale ≡ false
    → Inv t
Turn-Inv {s} i call was before clean =
    moved s i outside loading was (before clean) (λ a k h. absurd (cc)) (λ a h. absurd (cc)) s.head
      s.num_pages s.owner
Turn-Inv {s} i loaded was before clean =
    moved s i loading (adding s.tail) was (before clean) (λ a k h. absurd (cc))
      (λ a h. ground (arith, h)) s.head s.num_pages s.owner
Turn-Inv {s} i (got_slot p live room) was before clean =
    took s i p (writing p (s.index p)) (before clean) room
      ((before clean).known i p (ground (arith, was))) (λ a k h. ground (arith, h)) (λ a. refl)
Turn-Inv {s} i (was_full p live full) was before clean =
    moved (bump s p) i (adding p) locking was (bumped s p (before clean)) (λ a k h. absurd (cc))
      (λ a h. absurd (cc)) s.head s.num_pages s.owner
Turn-Inv {s} i (stale_slot p k index dead few) was before clean = absurd (cc)
Turn-Inv {s} i (stale_full p index dead) was before clean = absurd (cc)
Turn-Inv {s} i (locked free) was before clean =
    moved s i locking checking was (before clean) (λ a k h. absurd (cc)) (λ a h. absurd (cc)) s.head
      s.num_pages (some i)
Turn-Inv {s} i (has_room room) was before clean =
    moved s i checking (adding_last s.tail) was (before clean) (λ a k h. absurd (cc))
      (λ a h. ground (arith, h)) s.head s.num_pages s.owner
Turn-Inv {s} i (has_none full) was before clean =
    moved s i checking storing_tail was (before clean) (λ a k h. absurd (cc)) (λ a h. absurd (cc))
      s.head s.num_pages s.owner
Turn-Inv {s} i (got_last p room) was before clean =
    took s i p (unlocking p (s.index p)) (before clean) room
      ((before clean).known i p (ground (arith, was))) (λ a k h. ground (arith, h)) (λ a. refl)
Turn-Inv {s} i (filled p full) was before clean =
    moved (bump s p) i (adding_last p) storing_tail was (bumped s p (before clean))
      (λ a k h. absurd (cc)) (λ a h. absurd (cc)) s.head s.num_pages s.owner
Turn-Inv {s} i store_tail was before clean = extended s i (before clean)
Turn-Inv {s} i (delete_head p many) was before clean =
    moved s i (counting p) (unlocking p 0) was (before clean) (λ a k h. ground (arith, h))
      (λ a h. absurd (cc)) (s.head + 1) s.num_pages s.owner
Turn-Inv {s} i (count_page p few) was before clean =
    moved s i (counting p) (unlocking p 0) was (before clean) (λ a k h. ground (arith, h))
      (λ a h. absurd (cc)) s.head (s.num_pages + 1) s.owner
Turn-Inv {s} i (unlock p k) was before clean =
    moved s i (unlocking p k) (writing p k) was (before clean) (λ a m h. h) (λ a h. absurd (cc))
      s.head s.num_pages none
Turn-Inv {s} i (write p k live) was before clean = stored s i p k was (before clean)
Turn-Inv {s} i (stale_write p k index written dead) was before clean = absurd (cc)

Reach-Inv : {s : System} → Reach s → s.stale ≡ false → Inv s
Reach-Inv here clean = record {
  known = λ j p h. absurd (cc);
  below = λ j p k h. absurd (cc);
  past = λ p k h. absurd (cc);
  fresh = λ j p k h. absurd (cc);
  alone = λ i j p k hi hj. absurd (cc);
}
Reach-Inv (next i r turn) clean = Turn-Inv i turn refl (Reach-Inv r) clean

-- In every state that is reached without any use of a page after it was deleted, a thread about to
-- store its event has a slot below `EventsPerPage`, of a page that has been linked, in which no event
-- has been stored, and no other thread is about to store in that slot.
pub own_slot :
    {s : System}
    → Reach s
    → s.stale ≡ false
    → (i j p k : ℕ) → s.pc i ≡ writing p k
    → s.pc j ≡ writing p k
    → (i ≡ j) × (s.written p k ≡ false) × (k < events_per_page) × (p ≤ s.tail)
own_slot {s} r clean i j p k hi hj =
    let inv = Reach-Inv r clean in
    let mine : has (s.pc i) p k ≡ true = ground (arith, hi) in
    let own = inv.below i p k mine in
    let theirs : has (s.pc j) p k ≡ true = ground (arith, hj) in
    (inv.alone i j p k mine theirs, inv.fresh i p k mine, own.1, own.2)
