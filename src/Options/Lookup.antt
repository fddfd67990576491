-- ===== src/Options/Lookup.antt =====
-- The dictionaries that `parse` fills, where its assertions hold.
use turf.Prelude.{
  ℕ, ◌==◌, Bool, true, false, ◌&&◌, Bool-cases, inl, inr, ==_iff, some, List, [], ◌∷◌, ◌++◌, ◌≡◌,
  ◌⊎◌, refl, ap, ap₂, ◌∙◌, arith,
}
use turf.Options.{
  CString, Declared, Dictionaries, same, find_long, find_short, declare, assert_new, declare_all,
  assert_all, with_help, dictionaries,
}

both : (a b : Bool) (h : (a && b) ≡ true) → (a ≡ true) × (b ≡ true)
both true b h = (refl, h)
both false b h = absurd (cc)

pub same→eq : (a b : CString) (h : same a b ≡ true) → a ≡ b
same→eq [] [] h = refl
same→eq [] (d ∷ ds) h = absurd (cc)
same→eq (c ∷ cs) [] h = absurd (cc)
same→eq (c ∷ cs) (d ∷ ds) h =
    let (first, others) = both (c == d) (same cs ds) h in
    ap₂ (λ (x : ℕ) (xs : CString). x ∷ xs) ((==_iff c d).0 first) (same→eq cs ds others)

pub same_refl : (a : CString) → same a a ≡ true
same_refl [] = refl
same_refl (c ∷ cs) = ap₂ (λ (x y : Bool). x && y) ((==_iff c c).1 refl) (same_refl cs)

-- One more declaration keeps what is found.
find_long-declare :
    (o v : Declared) (d : Dictionaries) (key : CString) (ok : assert_new o d ≡ true)
    (found : find_long key d.long_dict ≡ some v)
    → find_long key (declare o d).long_dict ≡ some v
find_long-declare o v d key ok found = elim (Bool-cases (same o.long_name key)) [
  | inl t ↦
      let again : find_long o.long_name d.long_dict ≡ some v =
        ap (λ (k : CString). find_long k d.long_dict) (same→eq o.long_name key t) ∙ found in
      absurd (ground (arith, again, ok))
  | inr t ↦ rw t found
]

find_short-declare :
    (o v : Declared) (d : Dictionaries) (key : ℕ) (ok : assert_new o d ≡ true)
    (found : find_short key d.short_dict ≡ some v)
    → find_short key (declare o d).short_dict ≡ some v
find_short-declare o v d key ok found = elim (Bool-cases (o.short_name == 0)) [
  | inl t ↦ rw t found
  | inr t ↦ elim (Bool-cases (o.short_name == key)) [
    | inl u ↦
        let again : find_short o.short_name d.short_dict ≡ some v =
          ap (λ (k : ℕ). find_short k d.short_dict) ((==_iff o.short_name key).0 u) ∙ found in
        absurd (ground (arith, again, ok, t))
    | inr u ↦ rw (t, u) found
  ]
]

find_long-declare_all :
    (os : List Declared) (v : Declared) (d : Dictionaries) (key : CString)
    (ok : assert_all os d ≡ true) (found : find_long key d.long_dict ≡ some v)
    → find_long key (declare_all os d).long_dict ≡ some v
find_long-declare_all [] v d key ok found = found
find_long-declare_all (o ∷ os) v d key ok found =
    let (now, later) = both (assert_new o d) (assert_all os (declare o d)) ok in
    find_long-declare_all os v (declare o d) key later (find_long-declare o v d key now found)

find_short-declare_all :
    (os : List Declared) (v : Declared) (d : Dictionaries) (key : ℕ) (ok : assert_all os d ≡ true)
    (found : find_short key d.short_dict ≡ some v)
    → find_short key (declare_all os d).short_dict ≡ some v
find_short-declare_all [] v d key ok found = found
find_short-declare_all (o ∷ os) v d key ok found =
    let (now, later) = both (assert_new o d) (assert_all os (declare o d)) ok in
    find_short-declare_all os v (declare o d) key later (find_short-declare o v d key now found)

-- The option is found by its long name and, where it has one, by its short name.
pub IsFound : Declared → Dictionaries → Type 0
IsFound o d =
    (find_long o.long_name d.long_dict ≡ some o)
    × ((o.short_name ≡ 0) ⊎ (find_short o.short_name d.short_dict ≡ some o))

declare_all-IsFound :
    (before after : List Declared) (o : Declared) (d : Dictionaries)
    (ok : assert_all (before ++ o ∷ after) d ≡ true)
    → IsFound o (declare_all (before ++ o ∷ after) d)
unfolding IsFound
declare_all-IsFound [] after o d ok =
    let later = (both (assert_new o d) (assert_all after (declare o d)) ok).1 in
    let long : find_long o.long_name (declare o d).long_dict ≡ some o =
      rw (same_refl o.long_name) refl in
    (
      find_long-declare_all after o (declare o d) o.long_name later long,
      elim (Bool-cases (o.short_name == 0)) [
        | inl t ↦ inl ((==_iff o.short_name 0).0 t)
        | inr t ↦
            let short : find_short o.short_name (declare o d).short_dict ≡ some o =
              rw (t, (==_iff o.short_name o.short_name).1 refl) refl in
            inr (find_short-declare_all after o (declare o d) o.short_name later short)
      ],
    )
declare_all-IsFound (b ∷ before) after o d ok =
    declare_all-IsFound before after o (declare b d)
      (both (assert_new b d) (assert_all (before ++ o ∷ after) (declare b d)) ok).1

-- Where the assertions of `parse` hold, each declared option is found by its own names: no other
-- option and not the help option hides it.
pub dictionaries-IsFound :
    (before after : List Declared) (o : Declared)
    (ok : assert_all (before ++ o ∷ after) with_help ≡ true)
    → IsFound o (dictionaries (before ++ o ∷ after))
unfolding dictionaries
dictionaries-IsFound before after o ok = declare_all-IsFound before after o with_help ok
