-- ===== src/Trace/Counters/Printed.antt =====
-- What the counters of a group hold after calls of TURF_TRACE, and what `dumpIfUsed` prints of them.
use native.Mathlib.Nat.{mod-lt}
use turf.Prelude.{
  ℕ, zero, suc, ◌+◌, ◌%◌, ◌^◌, ◌<◌, ◌==◌, ◌||◌, not, if◌then◌else◌, Bool-cases, inl, inr, Bool,
  false, Option, none, some, List, map, [], ◌∷◌, ◌≡◌, refl, ap, ◌∙◌, arith,
}
use turf.Trace.Counters.{
  Counter, Group, Line, heading, row, rows, add_one, trace, dump, dump_from, dump_if_used,
}

abbrev pub nth : ℕ → List Counter → Option Counter
nth k [] = none
nth zero (c ∷ cs) = some c
nth (suc k) (c ∷ cs) = nth k cs

-- The calls of TURF_TRACE with these indices.
abbrev pub traces : List ℕ → Group → Group
traces [] g = g
traces (i ∷ is) g = traces is (trace i g)

-- How many of the calls are for the counter `k`.
abbrev pub calls : ℕ → List ℕ → ℕ
calls k [] = 0
calls k (i ∷ is) = if i == k then suc (calls k is) else calls k is

abbrev pub advanced : Counter → ℕ → Counter
advanced c n = record c { count = (c.count + n) % 2 ^ 32 }

nth-add_one :
    (i k : ℕ) (cs : List Counter) (c : Counter) (at : nth k cs ≡ some c)
    → nth k (add_one i cs) ≡ some (if i == k then advanced c 1 else c)
unfolding add_one
nth-add_one i k [] c at = absurd (cc)
nth-add_one zero zero (d ∷ cs) c at =
    let same : d ≡ c = cc in ap (λ (x : Counter). some (advanced x 1)) same
nth-add_one zero (suc k) (d ∷ cs) c at =
    let differ : (0 == suc k) ≡ false = ground arith in rw differ at
nth-add_one (suc i) zero (d ∷ cs) c at =
    let differ : (suc i == 0) ≡ false = ground arith in rw differ at
nth-add_one (suc i) (suc k) (d ∷ cs) c at =
    let same : (suc i == suc k) ≡ (i == k) = ground arith in rw same (nth-add_one i k cs c at)

-- After any calls of TURF_TRACE, each counter of the group, which was below 2 ^ 32, is advanced by the
-- number of the calls with its index, modulo 2 ^ 32, and keeps its string.
pub traces-counted :
    (is : List ℕ) (g : Group) (k : ℕ) (c : Counter) (at : nth k g.counters ≡ some c)
    (word : c.count < 2 ^ 32)
    → nth k (traces is g).counters ≡ some (advanced c (calls k is))
traces-counted [] g k c at word =
    at ∙ ap (λ (n : ℕ). some (record c { count = n })) (omega (arith, word))
traces-counted (i ∷ is) g k c at word = elim (Bool-cases (i == k)) [
  | inl own ↦
      let now : nth k (trace i g).counters ≡ some (advanced c 1) =
        nth-add_one i k g.counters c at ∙ rw own refl in
      rw own (
        traces-counted is (trace i g) k (advanced c 1) now (mod-lt (c.count + 1) (omega arith))
        ∙ ap (λ (n : ℕ). some (record c { count = n })) (omega arith))
  | inr other ↦
      let now : nth k (trace i g).counters ≡ some c =
        nth-add_one i k g.counters c at ∙ rw other refl in
      rw other (traces-counted is (trace i g) k c now word)
]

-- Whether some counter is not 0.
abbrev pub is_used : List Counter → Bool
is_used [] = false
is_used (c ∷ cs) = not (c.count == 0) || is_used cs

-- The line of a counter.
abbrev pub line_of : Counter → Line
line_of c = row c.count c.str

-- The lines of a group: its name and a line for each counter, if one of them is not 0.
abbrev pub shown : Group → List Line
shown g = if is_used g.counters then heading g.name ∷ map line_of g.counters else []

rows-map : (cs : List Counter) → rows cs ≡ map line_of cs
rows-map [] = refl
rows-map (c ∷ cs) = ap (λ (l : List Line). line_of c ∷ l) (rows-map cs)

dump-map : (g : Group) → dump g ≡ heading g.name ∷ map line_of g.counters
unfolding dump
dump-map g = ap (λ (l : List Line). heading g.name ∷ l) (rows-map g.counters)

dump_from-shown :
    (g : Group) (cs : List Counter) → dump_from g cs ≡ (if is_used cs then dump g else [])
dump_from-shown g [] = refl
dump_from-shown g (c ∷ cs) = elim (Bool-cases (c.count == 0)) [
  | inl zeroed ↦ rw zeroed (dump_from-shown g cs)
  | inr used ↦ rw used refl
]

pub dump_if_used-shown : (g : Group) → dump_if_used g ≡ shown g
unfolding dump_if_used
dump_if_used-shown g =
    dump_from-shown g g.counters
    ∙ ap (λ (l : List Line). if is_used g.counters then l else []) (dump-map g)
