-- ===== src/Affinity/Filled.antt =====
-- The table that the constructor fills is the grouping of the threads by their cores.
use turf.Prelude.{
  ℕ, suc, ◌+◌, ◌%◌, ◌^◌, ◌<◌, ltb, lt→ltb, if◌then◌else◌, Bool-cases, inl, inr, true, false, none,
  some, List, [], ◌∷◌, ◌++◌, map, length, length-append, append_assoc, append_nil, ◌≡◌, refl, sym,
  ap, ap₂, ◌∙◌, arith,
}
use turf.Affinity.{
  CoreId, Cores, find_index, push_at, add_thread, no_cores, Affinity, affinity, finish, resize_one,
  Line, collector,
}
use turf.Affinity.Groups.{Thread, threads, members, is_listed, cores_from, groups}
use turf.Affinity.Table.{same_core_refl, same_core_sym, add_all, collect-add_all}
use turf.Affinity.Rows.{
  numbered, position, find_numbered, unlisted_index, numbered-append, AllDistinct, row, row_same,
  row_differ, rows_same, rows_pushed,
}
use turf.Affinity.Listed.{
  push_end, unlisted_differs, length-map, map-append, unlisted_split, AllDistinct-append,
}
use mathlib.Core.Path.{subst}

-- The table after the threads `ts`, whose cores are `ks`.
record IsFilled (ts : List Thread) (ks : List CoreId) (t : Cores) : Type 0 where
  infos : t.infos ≡ map (row ts) ks
  index_of : t.index_of ≡ numbered 0 ks
  count : t.num_hw_threads ≡ length ts % 2 ^ 32
  distinct : AllDistinct ks
  all : (id : CoreId) → is_listed id ks ≡ false → members id ts ≡ []

count_one :
    (ts : List Thread) (x : Thread) (n : ℕ) (count : n ≡ length ts % 2 ^ 32)
    → (n + 1) % 2 ^ 32 ≡ length (ts ++ x ∷ []) % 2 ^ 32
count_one ts x n count = omega (arith, count, length-append ts (x ∷ []))

-- `flush` on a core that has a row.
known_thread :
    (id : CoreId) (n i : ℕ) (t : Cores) (found : find_index id t.index_of ≡ some i)
    → add_thread id n t
      ≡ record t { infos = push_at i n t.infos; num_hw_threads = (t.num_hw_threads + 1) % 2 ^ 32 }
unfolding add_thread
known_thread id n i t found = rw (found, add_thread) refl

-- `flush` on a core that has none.
new_thread :
    (id : CoreId) (n : ℕ) (t : Cores) (missing : find_index id t.index_of ≡ none)
    → add_thread id n t ≡ record {
      infos = push_at (length t.infos) n (t.infos ++ [] ∷ []);
      num_hw_threads = (t.num_hw_threads + 1) % 2 ^ 32;
      index_of = t.index_of ++ (id, length t.infos) ∷ [];
    }
unfolding add_thread
new_thread id n t missing = rw (missing, add_thread) refl

known-IsFilled :
    (ts : List Thread) (ks : List CoreId) (t : Cores) (filled : IsFilled ts ks t) (id : CoreId)
    (n : ℕ) (listed : is_listed id ks ≡ true)
    → IsFilled (ts ++ (id, n) ∷ []) ks (add_thread id n t)
unfolding row
known-IsFilled ts ks t filled id n listed =
    let found : find_index id t.index_of ≡ some (position id ks) =
      ap (find_index id) filled.index_of
      ∙ find_numbered id ks 0 listed
      ∙ ap (λ (i : ℕ). some i) (omega arith) in
    subst (λ u. IsFilled (ts ++ (id, n) ∷ []) ks u)
      (sym (known_thread id n (position id ks) t found))
      (record {
        infos =
            ap (push_at (position id ks) n) filled.infos
            ∙ rows_pushed ts id n ks filled.distinct listed;
        index_of = filled.index_of;
        count = count_one ts (id, n) t.num_hw_threads filled.count;
        distinct = filled.distinct;
        all = λ k unlisted.
            row_differ ts k id n (unlisted_differs k id ks unlisted listed) ∙ filled.all k unlisted;
      })

new-IsFilled :
    (ts : List Thread) (ks : List CoreId) (t : Cores) (filled : IsFilled ts ks t) (id : CoreId)
    (n : ℕ) (unlisted : is_listed id ks ≡ false)
    → IsFilled (ts ++ (id, n) ∷ []) (ks ++ id ∷ []) (add_thread id n t)
unfolding row
new-IsFilled ts ks t filled id n unlisted =
    let missing : find_index id t.index_of ≡ none =
      ap (find_index id) filled.index_of ∙ unlisted_index id ks 0 unlisted in
    let size : length t.infos ≡ length ks =
      ap (λ (cs : List (List ℕ)). length cs) filled.infos ∙ length-map (row ts) ks in
    let last : row (ts ++ (id, n) ∷ []) id ≡ n ∷ [] =
      row_same ts id id n (same_core_refl id)
      ∙ ap (λ (ns : List ℕ). ns ++ n ∷ []) (filled.all id unlisted) in
    subst (λ u. IsFilled (ts ++ (id, n) ∷ []) (ks ++ id ∷ []) u) (sym (new_thread id n t missing))
      (record {
        infos =
            push_end n t.infos
            ∙ ap₂ (λ (cs : List (List ℕ)) (c : List ℕ). cs ++ c ∷ [])
                (filled.infos ∙ rows_same ts id n ks unlisted) (sym last)
            ∙ sym (map-append (row (ts ++ (id, n) ∷ [])) ks (id ∷ []));
        index_of =
            ap₂ (λ (m : List (CoreId × ℕ)) (i : ℕ). m ++ (id, i) ∷ []) filled.index_of
              (size ∙ (omega arith))
            ∙ sym (numbered-append ks id 0);
        count = count_one ts (id, n) t.num_hw_threads filled.count;
        distinct = AllDistinct-append ks id filled.distinct unlisted;
        all = λ k out.
            let (before, differ) = unlisted_split k id ks out in
            row_differ ts k id n (same_core_sym id k differ) ∙ filled.all k before;
      })

add_thread-IsFilled :
    (ts : List Thread) (ks : List CoreId) (t : Cores) (filled : IsFilled ts ks t) (id : CoreId)
    (n : ℕ)
    → IsFilled
        (ts ++ (id, n) ∷ [])
        (if is_listed id ks then ks else ks ++ id ∷ [])
        (add_thread id n t)
add_thread-IsFilled ts ks t filled id n = elim (Bool-cases (is_listed id ks)) [
  | inl t' ↦ rw t' (known-IsFilled ts ks t filled id n t')
  | inr f ↦ rw f (new-IsFilled ts ks t filled id n f)
]

add_all-IsFilled :
    (us ts : List Thread) (ks : List CoreId) (t : Cores) (filled : IsFilled ts ks t)
    → IsFilled (ts ++ us) (cores_from ks us) (add_all us t)
unfolding add_all
add_all-IsFilled [] ts ks t filled = subst (λ l. IsFilled l ks t) (sym (append_nil ts)) filled
add_all-IsFilled ((id, n) ∷ us) ts ks t filled =
    let more = if is_listed id ks then ks else ks ++ id ∷ [] in
    subst (λ l. IsFilled l (cores_from more us) (add_all us (add_thread id n t)))
      (append_assoc ts ((id, n) ∷ []) us)
      (add_all-IsFilled us (ts ++ (id, n) ∷ []) more (add_thread id n t)
        (add_thread-IsFilled ts ks t filled id n))

nothing-IsFilled : IsFilled [] [] no_cores
unfolding numbered AllDistinct
nothing-IsFilled = record {
  infos = refl;
  index_of = refl;
  count = refl;
  distinct = tt;
  all = λ id out. refl;
}

-- What the constructor leaves for these threads: their groups, or one core with one thread.
pub grouped : List Thread → Affinity
unfolding groups
grouped [] = record { is_accurate = false; cores = (0 ∷ []) ∷ []; num_threads = 1 }
grouped (t ∷ ts) = record {
  is_accurate = true;
  cores = groups (t ∷ ts);
  num_threads = suc (length ts);
}

abbrev accurate : List (List ℕ) → ℕ → Affinity
accurate cores n = record { is_accurate = true; cores = cores; num_threads = n }

abbrev not_accurate : List (List ℕ) → Affinity
not_accurate cores = record { is_accurate = false; cores = cores; num_threads = 1 }

finish_some :
    (t : Cores) (some_thread : ltb 0 t.num_hw_threads ≡ true)
    → finish t ≡ accurate t.infos t.num_hw_threads
unfolding finish
finish_some t some_thread = rw (some_thread, finish) refl

finish_none :
    (t : Cores) (no_thread : ltb 0 t.num_hw_threads ≡ false)
    → finish t ≡ not_accurate (push_at 0 0 (resize_one t.infos))
unfolding finish
finish_none t no_thread = rw (no_thread, finish) refl

finish-IsFilled :
    (ts : List Thread) (t : Cores) (filled : IsFilled ts (cores_from [] ts) t)
    (few : length ts < 2 ^ 32)
    → finish t ≡ grouped ts
unfolding grouped groups row
finish-IsFilled [] t filled few =
    finish_none t (ap (ltb 0) filled.count)
    ∙ ap (λ (cs : List (List ℕ)). not_accurate (push_at 0 0 (resize_one cs))) filled.infos
finish-IsFilled (x ∷ ts) t filled few =
    let count : t.num_hw_threads ≡ suc (length ts) = omega (arith, filled.count, few) in
    finish_some t (lt→ltb 0 _ (omega (arith, count))) ∙ ap₂ accurate filled.infos count

-- The end of a constructor that has flushed these threads.
pub finish-grouped :
    (ts : List Thread) (few : length ts < 2 ^ 32) → finish (add_all ts no_cores) ≡ grouped ts
finish-grouped ts few =
    finish-IsFilled ts (add_all ts no_cores) (add_all-IsFilled ts [] [] no_cores nothing-IsFilled)
      few

-- For a file with fewer than 2 ^ 32 hardware threads the constructor leaves one core for each pair of
-- ids, in the order in which the pairs first occur, each with its logical processors in their order,
-- and the number of all threads; for a file with none, one core with logical processor 0.
pub affinity-grouped :
    (ls : List Line) (few : length (threads collector ls) < 2 ^ 32)
    → affinity ls ≡ grouped (threads collector ls)
unfolding affinity
affinity-grouped ls few =
    ap finish (collect-add_all collector no_cores ls) ∙ finish-grouped (threads collector ls) few
