-- ===== src/Trace/MemLog/Shared/Count.antt =====
-- How many pages are linked from `m_head` to `m_tail`.
use turf.Prelude.{
  ℕ, ◌+◌, ◌≤◌, ◌≡◌, ◌≢◌, ◌⊎◌, inl, inr, refl, sym, ◌∙◌, update, Bool, Bool-cases, true, false,
  Option, none, some, arith,
}
use turf.Trace.MemLog.{max_num_pages}
use turf.Trace.MemLog.Shared.{
  Pc, outside, loading, adding, locking, checking, adding_last, storing_tail, counting, unlocking,
  writing, System, at, bump, Turn, call, loaded, got_slot, was_full, stale_slot, stale_full, locked,
  has_room, has_none, got_last, filled, store_tail, delete_head, count_page, unlock, write,
  stale_write, Reach, here, next,
}

-- Between the lock and the unlock of the mutex.
abbrev inside : Pc → Bool
inside checking = true
inside (adding_last p) = true
inside storing_tail = true
inside (counting p) = true
inside (unlocking p k) = true
inside pc = false

-- One page less is counted than is linked.
abbrev is_counting : Pc → Bool
is_counting (counting p) = true
is_counting pc = false

record Inv (s : System) : Type 0 where
  owned : (j : ℕ) → inside (s.pc j) ≡ true → s.owner ≡ some j
  linked :
      ((s.num_pages + s.head ≡ s.tail + 1) × ((j : ℕ) → is_counting (s.pc j) ≡ false))
      ⊎ ((s.num_pages + s.head ≡ s.tail) × ((j : ℕ) × (is_counting (s.pc j) ≡ true)))
  few : s.num_pages ≤ max_num_pages

-- A step that moves one thread and links and counts no page.
moved :
    (s : System) (i : ℕ) (p q : Pc) (was : s.pc i ≡ p) (inv : Inv s) (o : Option ℕ)
    (owned : (j : ℕ) → inside (update s.pc i q j) ≡ true → o ≡ some j)
    (p_other : is_counting p ≡ false) (q_other : is_counting q ≡ false) (index : ℕ → ℕ)
    (written : ℕ → ℕ → Bool) (stale : Bool)
    → Inv (record (at s i q) { owner = o; index = index; written = written; stale = stale })
moved s i p q was inv o owned p_other q_other index written stale = record {
  owned = owned;
  linked = elim inv.linked [
    | inl (e, nobody) ↦ inl (e, λ j. ground (arith, nobody j, q_other))
    | inr (e, (j, h)) ↦ inr (e, (j, ground (arith, h, was, p_other)))
  ];
  few = inv.few;
}

inside_if_counting : (p : Pc) (h : is_counting p ≡ true) → inside p ≡ true
inside_if_counting p h = ground (arith, h)

nobody_else :
    (s : System) (i : ℕ) (inv : Inv s) (within : inside (s.pc i) ≡ true) (j : ℕ) (other : i ≢ j)
    → is_counting (s.pc j) ≡ false
nobody_else s i inv within j other = elim (Bool-cases (is_counting (s.pc j))) [
  | inl t ↦
      let same : some i ≡ some j =
        sym (inv.owned i within) ∙ inv.owned j (inside_if_counting (s.pc j) t) in
      absurd (other (cc))
  | inr f ↦ f
]

-- A step that counts the new page.
counted :
    (s : System) (i p head num_pages : ℕ) (was : s.pc i ≡ counting p) (inv : Inv s)
    (more : head + num_pages ≡ s.head + s.num_pages + 1) (few : num_pages ≤ max_num_pages)
    → Inv (record (at s i (unlocking p 0)) { head = head; num_pages = num_pages })
counted s i p head num_pages was inv more few = record {
  owned = λ j h. ground (arith, inv.owned j, inv.owned i, was, h);
  linked = elim inv.linked [
    | inl (e, nobody) ↦ absurd (ground (arith, nobody i, was))
    | inr (e, (l, h)) ↦
        inl (omega (arith, e, more), λ j. ground (arith, nobody_else s i inv (rw was refl) j))
  ];
  few = few;
}

Turn-Inv : {s : System} (i : ℕ) {p : Pc} {t : System} → Turn s i p t → s.pc i ≡ p → Inv s → Inv t
Turn-Inv {s} i call was inv =
    moved s i outside loading was inv s.owner
      (λ j h. ground (arith, inv.owned j, inv.owned i, was, h)) refl refl s.index s.written s.stale
Turn-Inv {s} i loaded was inv =
    moved s i loading (adding s.tail) was inv s.owner
      (λ j h. ground (arith, inv.owned j, inv.owned i, was, h)) refl refl s.index s.written s.stale
Turn-Inv {s} i (got_slot p live room) was inv =
    moved s i (adding p) (writing p (s.index p)) was inv s.owner
      (λ j h. ground (arith, inv.owned j, inv.owned i, was, h)) refl refl (bump s p).index s.written
      s.stale
Turn-Inv {s} i (was_full p live full) was inv =
    moved s i (adding p) locking was inv s.owner
      (λ j h. ground (arith, inv.owned j, inv.owned i, was, h)) refl refl (bump s p).index s.written
      s.stale
Turn-Inv {s} i (stale_slot p k index dead few) was inv =
    moved s i (adding p) (writing p k) was inv s.owner
      (λ j h. ground (arith, inv.owned j, inv.owned i, was, h)) refl refl index s.written true
Turn-Inv {s} i (stale_full p index dead) was inv =
    moved s i (adding p) locking was inv s.owner
      (λ j h. ground (arith, inv.owned j, inv.owned i, was, h)) refl refl index s.written true
Turn-Inv {s} i (locked free) was inv =
    moved s i locking checking was inv (some i) (λ j h. ground (arith, inv.owned j, free, h)) refl
      refl s.index s.written s.stale
Turn-Inv {s} i (has_room room) was inv =
    moved s i checking (adding_last s.tail) was inv s.owner
      (λ j h. ground (arith, inv.owned j, inv.owned i, was, h)) refl refl s.index s.written s.stale
Turn-Inv {s} i (has_none full) was inv =
    moved s i checking storing_tail was inv s.owner
      (λ j h. ground (arith, inv.owned j, inv.owned i, was, h)) refl refl s.index s.written s.stale
Turn-Inv {s} i (got_last p room) was inv =
    moved s i (adding_last p) (unlocking p (s.index p)) was inv s.owner
      (λ j h. ground (arith, inv.owned j, inv.owned i, was, h)) refl refl (bump s p).index s.written
      s.stale
Turn-Inv {s} i (filled p full) was inv =
    moved s i (adding_last p) storing_tail was inv s.owner
      (λ j h. ground (arith, inv.owned j, inv.owned i, was, h)) refl refl (bump s p).index s.written
      s.stale
Turn-Inv {s} i store_tail was inv = record {
  owned = λ j h. ground (arith, inv.owned j, inv.owned i, was, h);
  linked = elim inv.linked [
    | inl (e, nobody) ↦ inr (omega (arith, e), (i, ground arith))
    | inr (e, (j, h)) ↦
        absurd (ground (arith, inv.owned j, inv.owned i, inside_if_counting (s.pc j), was, h))
  ];
  few = inv.few;
}
Turn-Inv {s} i (delete_head p many) was inv =
    counted s i p (s.head + 1) s.num_pages was inv (omega arith) inv.few
Turn-Inv {s} i (count_page p less) was inv =
    counted s i p s.head (s.num_pages + 1) was inv (omega arith) (omega (arith, less))
Turn-Inv {s} i (unlock p k) was inv =
    moved s i (unlocking p k) (writing p k) was inv none
      (λ j h. absurd (ground (arith, inv.owned j, inv.owned i, was, h))) refl refl s.index s.written
      s.stale
Turn-Inv {s} i (write p k live) was inv =
    moved s i (writing p k) outside was inv s.owner
      (λ j h. ground (arith, inv.owned j, inv.owned i, was, h)) refl refl s.index _ s.stale
Turn-Inv {s} i (stale_write p k index written dead) was inv =
    moved s i (writing p k) outside was inv s.owner
      (λ j h. ground (arith, inv.owned j, inv.owned i, was, h)) refl refl index written true

Reach-Inv : {s : System} → Reach s → Inv s
Reach-Inv here = record {
  owned = λ j h. absurd (cc);
  linked = inl (refl, λ j. refl);
  few = omega arith;
}
Reach-Inv (next i r turn) = Turn-Inv i turn refl (Reach-Inv r)

-- In every reachable state in which the mutex is free, `m_numPages` is the number of pages from
-- `m_head` to `m_tail`, and at most `MaxNumPages`.
pub pages_counted :
    {s : System}
    → Reach s
    → s.owner ≡ none
    → (s.num_pages + s.head ≡ s.tail + 1) × (s.num_pages ≤ max_num_pages)
pages_counted {s} r free =
    let inv = Reach-Inv r in
    (
      elim inv.linked [
        | inl (e, nobody) ↦ e
        | inr (e, (j, h)) ↦
            absurd (ground (arith, inv.owned j, inside_if_counting (s.pc j), h, free))
      ],
      inv.few,
    )
