-- ===== src/Trace/Counters/Shared/Inv.antt =====
-- The list that `addGroup` builds, in every reachable state.
use turf.Prelude.{
  ℕ, suc, ◌+◌, ◌==◌, if◌then◌else◌, ◌≡◌, refl, sym, ap, ◌∙◌, update, Option, none, some, List, [],
  ◌∷◌, ◌++◌, append_assoc, arith, ℕ_discrete,
}
use mathlib.Core.Path.{subst}
use turf.Trace.Counters.Shared.{
  Pc, linking, exchanging, added, Reader, idle, walking, System, at, reading, Turn, load, link,
  failed, exchanged, Read, start, visit, stop, adds, reads, init, Reach, here, next,
}

-- How often an address is in a list.
abbrev pub occurs : ℕ → List ℕ → ℕ
occurs i [] = 0
occurs i (k ∷ l) = if k == i then suc (occurs i l) else occurs i l

-- The addresses on the way from a pointer to NULL.
unfoldable pub Chain : (ℕ → Option ℕ) → Option ℕ → List ℕ → Type 0
Chain m_next p [] = p ≡ none
Chain m_next p (i ∷ l) = (p ≡ some i) × Chain m_next (m_next i) l

occurs-append : (i : ℕ) (l m : List ℕ) → occurs i (l ++ m) ≡ occurs i l + occurs i m
occurs-append i [] m = omega arith
occurs-append i (k ∷ l) m = ground (arith, occurs-append i l m)

-- A store to a group that is not on the way does not change it.
unrelated_store :
    (m_next : ℕ → Option ℕ) (i : ℕ) (h p : Option ℕ) (l : List ℕ) (out : occurs i l ≡ 0)
    (c : Chain m_next p l)
    → Chain (update m_next i h) p l
unfolding Chain
unrelated_store m_next i h p [] out c = c
unrelated_store m_next i h p (k ∷ l) out (e, c) =
    let other : update m_next i h k ≡ m_next k = ground (arith, out) in
    (
      e,
      subst (λ q. Chain (update m_next i h) q l) (sym other)
          (unrelated_store m_next i h (m_next k) l (ground (arith, out)) c),
    )

-- What a thread in `dumpStats` has before it.
pub record Walks (m_next : ℕ → Option ℕ) (pushed : List ℕ) (p : Option ℕ) (v snap : List ℕ)
    : Type 0 where
  pub rest : List ℕ
  pub later : List ℕ
  pub split : snap ≡ v ++ rest
  pub ahead : Chain m_next p rest
  pub since : pushed ≡ later ++ snap

-- 1 once the group is added.
abbrev pub is_added : Pc → ℕ
is_added added = 1
is_added p = 0

pub record Inv (s : System) : Type 0 where
  pub listed : Chain s.m_next s.first_group s.pushed
  pub counted : (i : ℕ) → occurs i s.pushed ≡ is_added (s.pc i)
  pub linked : (i : ℕ) (h : Option ℕ) → s.pc i ≡ exchanging h → s.m_next i ≡ h
  pub walks :
      (j : ℕ) (p : Option ℕ) (v snap : List ℕ)
      → s.reader j ≡ walking p v snap
      → Walks s.m_next s.pushed p v snap

not_ahead :
    {m_next : ℕ → Option ℕ} {pushed : List ℕ} {p : Option ℕ} {v snap : List ℕ} (i : ℕ)
    (w : Walks m_next pushed p v snap) (out : occurs i pushed ≡ 0)
    → occurs i w.rest ≡ 0
not_ahead {pushed = pushed} {v = v} {snap = snap} i w out =
    let e : occurs i pushed ≡ occurs i w.later + occurs i snap =
      ap (occurs i) w.since ∙ occurs-append i w.later snap in
    let f : occurs i snap ≡ occurs i v + occurs i w.rest =
      ap (occurs i) w.split ∙ occurs-append i v w.rest in
    omega (arith, e, f, out)

stored :
    {m_next : ℕ → Option ℕ} {pushed : List ℕ} {p : Option ℕ} {v snap : List ℕ} (i : ℕ)
    (h : Option ℕ) (w : Walks m_next pushed p v snap) (out : occurs i pushed ≡ 0)
    → Walks (update m_next i h) pushed p v snap
stored {m_next = m_next} {p = p} i h w out = record {
  rest = w.rest;
  later = w.later;
  split = w.split;
  ahead = unrelated_store m_next i h p w.rest (not_ahead i w out) w.ahead;
  since = w.since;
}

pushed_on :
    {m_next : ℕ → Option ℕ} {pushed : List ℕ} {p : Option ℕ} {v snap : List ℕ} (i : ℕ)
    (w : Walks m_next pushed p v snap)
    → Walks m_next (i ∷ pushed) p v snap
pushed_on i w = record {
  rest = w.rest;
  later = i ∷ w.later;
  split = w.split;
  ahead = w.ahead;
  since = ap (λ (l : List ℕ). i ∷ l) w.since;
}

-- A thread of `addGroup` that reads the head.
relinked :
    (s : System) (i : ℕ) (inv : Inv s) (out : is_added (s.pc i) ≡ 0)
    → Inv (at s i (linking s.first_group))
relinked s i inv out = record {
  listed = inv.listed;
  counted = λ k. ground (arith, inv.counted k, inv.counted i, out);
  linked = λ k h e. ground (arith, inv.linked k h, e);
  walks = inv.walks;
}

Turn-Inv : {s : System} (i : ℕ) {p : Pc} {t : System} → Turn s i p t → s.pc i ≡ p → Inv s → Inv t
unfolding Chain
Turn-Inv {s} i load was inv = relinked s i inv (ap is_added was)
Turn-Inv {s} i (link h) was inv =
    let out : occurs i s.pushed ≡ 0 = inv.counted i ∙ ap is_added was in
    record {
      listed = unrelated_store s.m_next i h s.first_group s.pushed out inv.listed;
      counted = λ k. ground (arith, inv.counted k, inv.counted i, was);
      linked = λ k g e. ground (arith, inv.linked k g, e);
      walks = λ j p v snap e. stored i h (inv.walks j p v snap e) out;
    }
Turn-Inv {s} i (failed h) was inv = relinked s i inv (ap is_added was)
Turn-Inv {s} i (exchanged h same) was inv = record {
  listed =
      (refl, subst (λ q. Chain s.m_next q s.pushed) (same ∙ sym (inv.linked i h was)) inv.listed);
  counted = λ k. ground (arith, inv.counted k, inv.counted i, was);
  linked = λ k g e. ground (arith, inv.linked k g, e);
  walks = λ j p v snap e. pushed_on i (inv.walks j p v snap e);
}

-- A step of thread `j` in `dumpStats`.
read_on :
    (s : System) (j : ℕ) (r : Reader) (inv : Inv s)
    (own : (p : Option ℕ) (v snap : List ℕ)
      → r ≡ walking p v snap
      → Walks s.m_next s.pushed p v snap)
    → Inv (reading s j r)
read_on s j r inv own = record {
  listed = inv.listed;
  counted = inv.counted;
  linked = inv.linked;
  walks = λ k p v snap e. elim (ℕ_discrete j k) [
    | yes same ↦ own p v snap (ground (arith, e, same))
    | no other ↦ inv.walks k p v snap (ground (arith, e, other))
  ];
}

walks_same :
    {m_next : ℕ → Option ℕ} {pushed : List ℕ} {p q : Option ℕ} {v w snap now : List ℕ}
    (e : walking p v snap ≡ walking q w now) (walks : Walks m_next pushed p v snap)
    → Walks m_next pushed q w now
walks_same {m_next = m_next} {pushed = pushed} {p = p} {q = q} {v = v} {w = w} {snap = snap}
      {now = now} e walks =
    let ep : p ≡ q = cc in
    let ev : v ≡ w = cc in
    let es : snap ≡ now = cc in
    subst (λ a. Walks m_next pushed a w now) ep
      (subst (λ b. Walks m_next pushed p b now) ev
        (subst (λ c. Walks m_next pushed p v c) es walks))

advance :
    (m_next : ℕ → Option ℕ) (pushed : List ℕ) (g : ℕ) (v snap rest later : List ℕ)
    (split : snap ≡ v ++ rest) (ahead : Chain m_next (some g) rest) (since : pushed ≡ later ++ snap)
    → Walks m_next pushed (m_next g) (v ++ g ∷ []) snap
unfolding Chain
advance m_next pushed g v snap [] later split ahead since = absurd (cc)
advance m_next pushed g v snap (k ∷ l) later split (e, ahead) since =
    let same : g ≡ k = cc in
    record {
      rest = l;
      later = later;
      split = split ∙ ap (λ (x : ℕ). v ++ x ∷ l) (sym same) ∙ sym (append_assoc v (g ∷ []) l);
      ahead = subst (λ x. Chain m_next (m_next x) l) (sym same) ahead;
      since = since;
    }

Read-Inv :
    {s : System} (j : ℕ) {r : Reader} {t : System} → Read s j r t → s.reader j ≡ r → Inv s → Inv t
Read-Inv {s} j start was inv = read_on s j (walking s.first_group [] s.pushed) inv (λ p v snap e.
    walks_same e
      (record { rest = s.pushed; later = []; split = refl; ahead = inv.listed; since = refl }))
Read-Inv {s} j (visit g v snap) was inv =
    let w = inv.walks j (some g) v snap was in
    read_on s j (walking (s.m_next g) (v ++ g ∷ []) snap) inv (λ p u now e.
      walks_same e (advance s.m_next s.pushed g v snap w.rest w.later w.split w.ahead w.since))
Read-Inv {s} j (stop v snap) was inv = read_on s j idle inv (λ p u now e. absurd (cc))

init-Inv : Inv init
unfolding Chain
init-Inv = record {
  listed = refl;
  counted = λ i. refl;
  linked = λ i h e. absurd (cc);
  walks = λ j p v snap e. absurd (cc);
}

pub Reach-Inv : {s : System} → Reach s → Inv s
Reach-Inv here = init-Inv
Reach-Inv (next r (adds i t)) = Turn-Inv i t refl (Reach-Inv r)
Reach-Inv (next r (reads j t)) = Read-Inv j t refl (Reach-Inv r)
