-- ===== src/Affinity/FreeBsd/Whole.antt =====
-- The table of cores of processors that all report the same levels.
use native.Mathlib.Nat.{pow-le-pow_right, mod-lt, div-lt_iff_lt-mul}
use turf.Prelude.{
  ℕ, zero, suc, ◌+◌, ◌-◌, ◌/◌, ◌%◌, ◌^◌, ◌≤◌, ◌<◌, lt→ltb, Bool, true, false, length, List, [], ◌∷◌,
  ◌≡◌, refl, sym, ap, ap₂, ◌∙◌, arith,
}
use turf.Affinity.{ℤ, pos, CoreId, Cores, no_cores, finish, flush, add_thread}
use turf.Affinity.Groups.{Thread}
use turf.Affinity.Table.{add_all}
use turf.Affinity.Filled.{grouped, finish-grouped}
use turf.Affinity.FreeBsd.{
  Cpuid, Levels, no_levels, Topology, found, undefined_shift, get_topology, to_int, core_of, built,
  undefined, build, affinity,
}
use turf.Affinity.FreeBsd.Masks.{positive}
use turf.Affinity.FreeBsd.Ids.{
  Reports, kept, levels_after, get_topology-Reports, locate_kept, locate_single,
}

-- The core of an id.
abbrev pub place : ℕ → ℕ → ℕ → CoreId
place t c id = record { physical = pos (id / 2 ^ c); core = pos (id / 2 ^ t % 2 ^ (c - t)) }

-- The logical processors from `p` on, with their cores.
unfoldable pub located : (ℕ → ℕ) → ℕ → ℕ → ℕ → ℕ → List Thread
located ids t c p zero = []
located ids t c p (suc k) = (place t c (ids p), p) ∷ located ids t c (p + 1) k

length-located : (ids : ℕ → ℕ) (t c p k : ℕ) → length (located ids t c p k) ≡ k
unfolding located
length-located ids t c p zero = refl
length-located ids t c p (suc k) = ap suc (length-located ids t c (p + 1) k)

to_int-pos : (v : ℕ) (small : v < 2 ^ 31) → to_int v ≡ pos v
to_int-pos v small = rw (lt→ltb v (2 ^ 31) small) refl

phys_small : (id c : ℕ) (pos_shift : 1 ≤ c) (word : id < 2 ^ 32) → id / 2 ^ c < 2 ^ 31
phys_small id c pos_shift word =
    let two : 2 ≤ 2 ^ c = pow-le-pow_right {n = 2} (omega arith) pos_shift in
    (div-lt_iff_lt-mul {k = 2 ^ c} (positive c)).1 (grind arith)

core_small : (id t c : ℕ) (lt : c ≤ 31) → id / 2 ^ t % 2 ^ (c - t) < 2 ^ 31
core_small id t c lt =
    let less : c - t ≤ 31 = omega (arith, lt) in
    let bound : 2 ^ (c - t) ≤ 2 ^ 31 = pow-le-pow_right {n = 2} (omega arith) less in
    omega (arith, bound, mod-lt (id / 2 ^ t) (positive (c - t)))

core_of-place :
    (t c id : ℕ) (some_core : t < c) (lt : c < 32) (word : id < 2 ^ 32)
    → core_of (id / 2 ^ c) (id / 2 ^ t % 2 ^ (c - t)) ≡ place t c id
core_of-place t c id some_core lt word =
    ap₂ (λ (x y : ℤ). record { physical = x; core = y })
      (to_int-pos (id / 2 ^ c) (phys_small id c (omega (arith, some_core)) word))
      (to_int-pos (id / 2 ^ t % 2 ^ (c - t)) (core_small id t c (omega (arith, lt))))

flush_place :
    (t c id p : ℕ) (cores : Cores) (small : p < 2 ^ 31)
    → flush (record { logical_processor = to_int p; core_id = place t c id }) cores
      ≡ add_thread (place t c id) p cores
unfolding flush
flush_place t c id p cores small = rw (to_int-pos p small) refl

found_step :
    (allowed : ℕ → Bool) (cpu : ℕ → Cpuid) (rounds steps p : ℕ) (l m : Levels) (cores : Cores)
    (physical core : ℕ) (runs : allowed p ≡ true)
    (e : get_topology (cpu p) rounds l ≡ (found physical core, m))
    → build allowed cpu rounds (suc steps) p l cores
      ≡ build allowed cpu rounds steps
          (p + 1)
          m
          (flush (record { logical_processor = to_int p; core_id = core_of physical core }) cores)
unfolding build
found_step allowed cpu rounds steps p l m cores physical core runs e =
    let answer : (get_topology (cpu p) rounds l).0 ≡ found physical core =
      ap (λ (r : Topology × Levels). r.0) e in
    let levels : (get_topology (cpu p) rounds l).1 ≡ m = ap (λ (r : Topology × Levels). r.1) e in
    let cores' =
      flush (record { logical_processor = to_int p; core_id = core_of physical core }) cores in
    rw (runs, answer, build)
      (ap (λ (k : Levels). build allowed cpu rounds steps (p + 1) k cores') levels)

module _ (allowed : ℕ → Bool) (cpu : ℕ → Cpuid) (ids : ℕ → ℕ) (t c rounds : ℕ) where
  build_step :
      (steps p : ℕ) (known : Bool) (cores : Cores) (runs : allowed p ≡ true)
      (reports : Reports t c (ids p) (cpu p)) (some_core : t < c) (lt : c < 32)
      (word : ids p < 2 ^ 32) (small : p < 2 ^ 31)
      → build allowed cpu (suc (suc (suc rounds))) (suc steps) p (levels_after known t c) cores
        ≡ build allowed cpu
            (suc (suc (suc rounds)))
            steps
            (p + 1)
            (levels_after true t c)
            (add_thread (place t c (ids p)) p cores)
  build_step steps p known cores runs reports some_core lt word small =
      let id = ids p in
      found_step allowed cpu (suc (suc (suc rounds))) steps p (levels_after known t c) (kept t c)
        cores (id / 2 ^ c) (id / 2 ^ t % 2 ^ (c - t)) runs
        (get_topology-Reports t c id rounds (cpu p) reports known
          ∙ ap (λ (r : Topology). (r, kept t c)) (locate_kept t c id some_core lt word))
      ∙ ap (build allowed cpu (suc (suc (suc rounds))) steps (p + 1) (kept t c)) (
          ap (λ (k : CoreId). flush (record { logical_processor = to_int p; core_id = k }) cores)
            (core_of-place t c id some_core lt word)
          ∙ flush_place t c id p cores small)

  build-located :
      (k steps p n : ℕ) (known : Bool) (cores : Cores) (left : p + k ≡ n) (enough : k < steps)
      (small : n ≤ 2 ^ 31) (runs : (q : ℕ) → q < n → allowed q ≡ true) (stops : allowed n ≡ false)
      (reports : (q : ℕ) → q < n → Reports t c (ids q) (cpu q)) (some_core : t < c) (lt : c < 32)
      (words : (q : ℕ) → q < n → ids q < 2 ^ 32)
      → build allowed cpu (suc (suc (suc rounds))) steps p (levels_after known t c) cores
        ≡ built (finish (add_all (located ids t c p k) cores))
  unfolding build located add_all
  build-located k zero p n known cores left enough small runs stops reports some_core lt words =
      absurd (omega (arith, enough))
  build-located zero (suc steps) p n known cores left enough small runs stops reports some_core lt
        words =
      let e : n ≡ p = omega (arith, left) in
      let ends : allowed p ≡ false = ap allowed (sym e) ∙ stops in rw (ends, build) refl
  build-located (suc k) (suc steps) p n known cores left enough small runs stops reports some_core
        lt words =
      let here : p < n = omega (arith, left) in
      build_step steps p known cores (runs p here) (reports p here) some_core lt (words p here)
        (omega (arith, here, small))
      ∙ build-located k steps (p + 1) n true (add_thread (place t c (ids p)) p cores)
          (omega (arith, left)) (omega (arith, enough)) small runs stops reports some_core lt words

-- If the first `n` logical processors, at most 2 ^ 31, can be chosen and the next cannot, and each of
-- them reports `t` bits for the thread and `c` bits below the package, with `t < c < 32`, and an id of
-- 32 bits, then the constructor ends, with more than `n` steps and three rounds a scan, and leaves the
-- grouping of the logical processors by the two fields of their ids.
pub affinity-located :
    (allowed : ℕ → Bool) (cpu : ℕ → Cpuid) (ids : ℕ → ℕ) (t c rounds n steps : ℕ)
    (enough : n < steps) (small : n ≤ 2 ^ 31) (runs : (q : ℕ) → q < n → allowed q ≡ true)
    (stops : allowed n ≡ false) (reports : (q : ℕ) → q < n → Reports t c (ids q) (cpu q))
    (some_core : t < c) (lt : c < 32) (words : (q : ℕ) → q < n → ids q < 2 ^ 32)
    → affinity allowed cpu (suc (suc (suc rounds))) steps ≡ built (grouped (located ids t c 0 n))
unfolding affinity
affinity-located allowed cpu ids t c rounds n steps enough small runs stops reports some_core lt
      words =
    build-located allowed cpu ids t c rounds n steps 0 n false no_cores (omega arith) enough small
      runs stops reports some_core lt words
    ∙ ap built
        (finish-grouped (located ids t c 0 n) (omega (arith, length-located ids t c 0 n, small)))

-- If the first logical processor can be chosen and reports as many bits for the thread as below the
-- package, which is one core a package, then the constructor shifts by the width of the word.
pub affinity_single_core :
    (allowed : ℕ → Bool) (cpu : ℕ → Cpuid) (t id rounds steps : ℕ) (runs : allowed 0 ≡ true)
    (reports : Reports t t id (cpu 0))
    → affinity allowed cpu (suc (suc (suc rounds))) (suc steps) ≡ undefined
unfolding affinity build
affinity_single_core allowed cpu t id rounds steps runs reports =
    let e : get_topology (cpu 0) (suc (suc (suc rounds))) no_levels ≡ (undefined_shift, kept t t) =
      get_topology-Reports t t id rounds (cpu 0) reports false
      ∙ ap (λ (r : Topology). (r, kept t t)) (locate_single t id) in
    rw (runs, e, build) refl
