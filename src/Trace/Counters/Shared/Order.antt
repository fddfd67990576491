-- ===== src/Trace/Counters/Shared/Order.antt =====
-- What `addGroup` leaves, and what `dumpStats` visits and prints.
use turf.Prelude.{
  ℕ, zero, suc, ◌≤◌, ◌≡◌, sym, ap, ap₂, ◌∙◌, Option, none, some, List, [], ◌∷◌, ◌++◌, append_nil,
  length, arith,
}
use turf.Trace.Counters.{Group, Line, before, dump_stats}
use turf.Trace.Counters.Printed.{shown, dump_if_used-shown}
use turf.Trace.Counters.Shared.{System, Reach, walking}
use turf.Trace.Counters.Shared.Inv.{occurs, Chain, is_added, Reach-Inv}

-- In every reachable state the pointers from `m_firstGroup` along `m_next` lead through the groups that
-- were added, the last one first, to NULL; each group whose `addGroup` has made its exchange is there
-- once, and no other is.
pub groups_listed :
    (s : System) (r : Reach s)
    → Chain s.m_next s.first_group s.pushed × ((i : ℕ) → occurs i s.pushed ≡ is_added (s.pc i))
groups_listed s r = let inv = Reach-Inv r in (inv.listed, inv.counted)

-- If a thread in `dumpStats` has come to the end of the list, in any reachable state, it has visited
-- the groups that were added when it read `m_firstGroup`, the last one first, and those added since
-- stand before them.
pub all_visited :
    (s : System) (r : Reach s) (j : ℕ) (v snap : List ℕ) (end : s.reader j ≡ walking none v snap)
    → (v ≡ snap) × ((later : List ℕ) × (s.pushed ≡ later ++ v))
unfolding Chain
all_visited s r j v snap end =
    let w = (Reach-Inv r).walks j none v snap end in
    let same : snap ≡ v = w.split ∙ at_end w.rest w.ahead in
    (sym same, (w.later, w.since ∙ ap (λ (l : List ℕ). w.later ++ l) same))
  where
    at_end : (rest : List ℕ) → Chain s.m_next none rest → v ++ rest ≡ v
    at_end [] c = append_nil v
    at_end (k ∷ l) (e, c) = absurd (cc)

-- The lines of the groups of a list.
abbrev pub shown_all : (ℕ → Group) → List ℕ → List Line
shown_all groups [] = []
shown_all groups (g ∷ l) = shown (groups g) ++ shown_all groups l

dump_stats-Chain :
    (m_next : ℕ → Option ℕ) (groups : ℕ → Group) (rounds : ℕ) (p : Option ℕ) (l : List ℕ)
    (c : Chain m_next p l) (enough : length l ≤ rounds)
    → dump_stats m_next groups rounds p ≡ some (shown_all groups l)
unfolding Chain dump_stats
dump_stats-Chain m_next groups rounds p [] c enough = ap (dump_stats m_next groups rounds) c
dump_stats-Chain m_next groups zero p (g ∷ l) c enough = absurd (omega (arith, enough))
dump_stats-Chain m_next groups (suc n) p (g ∷ l) (e, c) enough =
    ap (dump_stats m_next groups (suc n)) e
    ∙ ap₂ before (dump_if_used-shown (groups g))
        (dump_stats-Chain m_next groups n (m_next g) l c (omega (arith, enough)))

-- In every reachable state, with any values of the counters, if no other thread has a step meanwhile:
-- with as many rounds as groups were added, `dumpStats` ends, and prints of each added group of which a
-- counter is not 0 its name and a line for each counter, the group added last first.
pub dump_stats-printed :
    (s : System) (r : Reach s) (groups : ℕ → Group) (rounds : ℕ) (enough : length s.pushed ≤ rounds)
    → dump_stats s.m_next groups rounds s.first_group ≡ some (shown_all groups s.pushed)
dump_stats-printed s r groups rounds enough =
    dump_stats-Chain s.m_next groups rounds s.first_group s.pushed (groups_listed s r).0 enough
