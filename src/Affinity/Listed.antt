-- ===== src/Affinity/Listed.antt =====
-- Lists of cores and rows: which cores are listed, and rows put at the end.
use turf.Prelude.{
  ℕ, suc, Bool-cases, inl, inr, true, false, List, [], ◌∷◌, ◌++◌, map, length, ◌≡◌, refl, ap, ◌∙◌,
}
use turf.Affinity.{CoreId, same_core, push_at}
use turf.Affinity.Groups.{is_listed}
use turf.Affinity.Table.{same_core→eq, same_core_sym}
use turf.Affinity.Rows.{is_listed_later, unlisted_parts, AllDistinct}

pub push_end :
    (n : ℕ) (cs : List (List ℕ)) → push_at (length cs) n (cs ++ [] ∷ []) ≡ cs ++ (n ∷ []) ∷ []
push_end n [] = refl
push_end n (c ∷ cs) = ap (λ (t : List (List ℕ)). c ∷ t) (push_end n cs)

-- A core that is not in the list is not one that is.
pub unlisted_differs :
    (k id : CoreId) (ks : List CoreId) (unlisted : is_listed k ks ≡ false)
    (listed : is_listed id ks ≡ true)
    → same_core k id ≡ false
unlisted_differs k id ks unlisted listed = elim (Bool-cases (same_core k id)) [
  | inl t ↦
      let e : is_listed k ks ≡ is_listed id ks =
        ap (λ (c : CoreId). is_listed c ks) (same_core→eq k id t) in
      absurd (cc)
  | inr f ↦ f
]

pub length-map : (f : CoreId → List ℕ) (ks : List CoreId) → length (map f ks) ≡ length ks
length-map f [] = refl
length-map f (k ∷ ks) = ap suc (length-map f ks)

pub map-append :
    (f : CoreId → List ℕ) (ks js : List CoreId) → map f (ks ++ js) ≡ map f ks ++ map f js
map-append f [] js = refl
map-append f (k ∷ ks) js = ap (λ (t : List (List ℕ)). f k ∷ t) (map-append f ks js)

pub unlisted_split :
    (id k : CoreId) (ks : List CoreId) (out : is_listed id (ks ++ k ∷ []) ≡ false)
    → (is_listed id ks ≡ false) × (same_core k id ≡ false)
unlisted_split id k [] out = (refl, (unlisted_parts id k [] out).0)
unlisted_split id k (j ∷ ks) out =
    let (differ, later) = unlisted_parts id j (ks ++ k ∷ []) out in
    let (rest, last) = unlisted_split id k ks later in (is_listed_later id j ks differ ∙ rest, last)

pub unlisted_join :
    (id k : CoreId) (ks : List CoreId) (out : is_listed id ks ≡ false)
    (differ : same_core k id ≡ false)
    → is_listed id (ks ++ k ∷ []) ≡ false
unlisted_join id k [] out differ = is_listed_later id k [] differ
unlisted_join id k (j ∷ ks) out differ =
    let (other, later) = unlisted_parts id j ks out in
    is_listed_later id j (ks ++ k ∷ []) other ∙ unlisted_join id k ks later differ

pub AllDistinct-append :
    (ks : List CoreId) (id : CoreId) (distinct : AllDistinct ks) (new : is_listed id ks ≡ false)
    → AllDistinct (ks ++ id ∷ [])
unfolding AllDistinct
AllDistinct-append [] id distinct new = (refl, tt)
AllDistinct-append (k ∷ ks) id (once, distinct) new =
    let (differ, later) = unlisted_parts id k ks new in
    (
      unlisted_join k id ks once (same_core_sym k id differ),
      AllDistinct-append ks id distinct later,
    )
