-- ===== src/Affinity/Rows.antt =====
-- The rows of the table that `flush` fills: one for each core that occurs.
use turf.Prelude.{
  ℕ, suc, ◌+◌, if◌then◌else◌, Bool-cases, inl, inr, true, false, none, some, List, [], ◌∷◌, ◌++◌,
  map, length, append_nil, ◌≡◌, refl, sym, ap, ap₂, ◌∙◌, arith,
}
use turf.Affinity.{CoreId, same_core, find_index, push_at}
use turf.Affinity.Groups.{Thread, members, is_listed}
use turf.Affinity.Table.{same_core→eq}

pub is_listed_later :
    (id k : CoreId) (ks : List CoreId) (differ : same_core k id ≡ false)
    → is_listed id (k ∷ ks) ≡ is_listed id ks
is_listed_later id k ks differ = rw (differ, is_listed) refl

pub unlisted_parts :
    (id k : CoreId) (ks : List CoreId) (unlisted : is_listed id (k ∷ ks) ≡ false)
    → (same_core k id ≡ false) × (is_listed id ks ≡ false)
unlisted_parts id k ks unlisted = elim (Bool-cases (same_core k id)) [
  | inl t ↦ let e : is_listed id (k ∷ ks) ≡ true = rw (t, is_listed) refl in absurd (cc)
  | inr f ↦ (f, sym (is_listed_later id k ks f) ∙ unlisted)
]

unfoldable pub numbered : ℕ → List CoreId → List (CoreId × ℕ)
numbered b [] = []
numbered b (k ∷ ks) = (k, b) ∷ numbered (suc b) ks

-- Where a core stands in the list.
pub position : CoreId → List CoreId → ℕ
position id [] = 0
position id (k ∷ ks) = if same_core k id then 0 else suc (position id ks)

pub find_numbered :
    (id : CoreId) (ks : List CoreId) (b : ℕ) (listed : is_listed id ks ≡ true)
    → find_index id (numbered b ks) ≡ some (b + position id ks)
unfolding numbered position
find_numbered id [] b listed = absurd (cc)
find_numbered id (k ∷ ks) b listed = elim (Bool-cases (same_core k id)) [
  | inl t ↦ rw t (ap (λ (n : ℕ). some n) (omega arith))
  | inr f ↦
      let later : is_listed id ks ≡ true = sym (is_listed_later id k ks f) ∙ listed in
      rw f (find_numbered id ks (suc b) later ∙ ap (λ (n : ℕ). some n) (omega arith))
]

pub unlisted_index :
    (id : CoreId) (ks : List CoreId) (b : ℕ) (unlisted : is_listed id ks ≡ false)
    → find_index id (numbered b ks) ≡ none
unfolding numbered
unlisted_index id [] b unlisted = refl
unlisted_index id (k ∷ ks) b unlisted =
    let (differ, later) = unlisted_parts id k ks unlisted in
    rw differ (unlisted_index id ks (suc b) later)

pub numbered-append :
    (ks : List CoreId) (id : CoreId) (b : ℕ)
    → numbered b (ks ++ id ∷ []) ≡ numbered b ks ++ (id, b + length ks) ∷ []
unfolding numbered
numbered-append [] id b = ap (λ (n : ℕ). (id, n) ∷ []) (omega arith)
numbered-append (k ∷ ks) id b =
    ap (λ (m : List (CoreId × ℕ)). (k, b) ∷ m)
      (numbered-append ks id (suc b)
        ∙ ap (λ (n : ℕ). numbered (suc b) ks ++ (id, n) ∷ []) (omega arith))

members-append :
    (k : CoreId) (ts us : List Thread) → members k (ts ++ us) ≡ members k ts ++ members k us
members-append k [] us = refl
members-append k ((id, n) ∷ ts) us = elim (Bool-cases (same_core k id)) [
  | inl t ↦ rw t (ap (λ (ns : List ℕ). n ∷ ns) (members-append k ts us))
  | inr f ↦ rw f (members-append k ts us)
]

-- No core stands twice.
unfoldable pub AllDistinct : List CoreId → Type 0
AllDistinct [] = Unit
AllDistinct (k ∷ ks) = (is_listed k ks ≡ false) × AllDistinct ks

unfoldable pub row : List Thread → CoreId → List ℕ
row ts k = members k ts

members_one_same :
    (k id : CoreId) (n : ℕ) (same : same_core k id ≡ true) → members k ((id, n) ∷ []) ≡ n ∷ []
members_one_same k id n same = rw (same, members) refl

members_one_differ :
    (k id : CoreId) (n : ℕ) (differ : same_core k id ≡ false) → members k ((id, n) ∷ []) ≡ []
members_one_differ k id n differ = rw (differ, members) refl

pub row_same :
    (ts : List Thread) (k id : CoreId) (n : ℕ) (same : same_core k id ≡ true)
    → row (ts ++ (id, n) ∷ []) k ≡ row ts k ++ n ∷ []
unfolding row
row_same ts k id n same =
    members-append k ts ((id, n) ∷ [])
    ∙ ap (λ (ns : List ℕ). members k ts ++ ns) (members_one_same k id n same)

pub row_differ :
    (ts : List Thread) (k id : CoreId) (n : ℕ) (differ : same_core k id ≡ false)
    → row (ts ++ (id, n) ∷ []) k ≡ row ts k
unfolding row
row_differ ts k id n differ =
    members-append k ts ((id, n) ∷ [])
    ∙ ap (λ (ns : List ℕ). members k ts ++ ns) (members_one_differ k id n differ)
    ∙ append_nil (members k ts)

-- A thread of another core leaves the rows as they are.
pub rows_same :
    (ts : List Thread) (id : CoreId) (n : ℕ) (ks : List CoreId) (unlisted : is_listed id ks ≡ false)
    → map (row ts) ks ≡ map (row (ts ++ (id, n) ∷ [])) ks
rows_same ts id n [] unlisted = refl
rows_same ts id n (k ∷ ks) unlisted =
    let (differ, later) = unlisted_parts id k ks unlisted in
    ap₂ (λ (c : List ℕ) (cs : List (List ℕ)). c ∷ cs) (sym (row_differ ts k id n differ))
      (rows_same ts id n ks later)

-- A thread of a core that has a row is put at the end of that row.
pub rows_pushed :
    (ts : List Thread) (id : CoreId) (n : ℕ) (ks : List CoreId) (distinct : AllDistinct ks)
    (listed : is_listed id ks ≡ true)
    → push_at (position id ks) n (map (row ts) ks) ≡ map (row (ts ++ (id, n) ∷ [])) ks
unfolding position AllDistinct
rows_pushed ts id n [] distinct listed = absurd (cc)
rows_pushed ts id n (k ∷ ks) (once, distinct) listed = elim (Bool-cases (same_core k id)) [
  | inl t ↦
      let unlisted : is_listed id ks ≡ false =
        ap (λ (c : CoreId). is_listed c ks) (sym (same_core→eq k id t)) ∙ once in
      rw t (
        ap₂ (λ (c : List ℕ) (cs : List (List ℕ)). c ∷ cs) (sym (row_same ts k id n t))
          (rows_same ts id n ks unlisted))
  | inr f ↦
      let later : is_listed id ks ≡ true = sym (is_listed_later id k ks f) ∙ listed in
      rw f (
        ap₂ (λ (c : List ℕ) (cs : List (List ℕ)). c ∷ cs) (sym (row_differ ts k id n f))
          (rows_pushed ts id n ks distinct later))
]
