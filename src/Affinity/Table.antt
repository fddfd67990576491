-- ===== src/Affinity/Table.antt =====
-- The table that `flush` fills is the grouping.
use turf.Prelude.{
  ℕ, ==_iff, Bool, Bool-cases, inl, inr, true, false, ◌&&◌, List, [], ◌∷◌, ◌++◌, ◌≡◌, refl, sym, ap,
  ap₂, ◌∙◌,
}
use turf.Affinity.{
  ℤ, pos, negsuc, CoreId, same_int, same_core, Cores, no_core, add_thread, Collector, flush, Line,
  processor, physical_id, other, collect,
}
use turf.Affinity.Groups.{Thread, finished, threads}

same_int→eq : (a b : ℤ) (h : same_int a b ≡ true) → a ≡ b
same_int→eq (pos m) (pos n) h = ap (λ (k : ℕ). pos k) ((==_iff m n).0 h)
same_int→eq (pos m) (negsuc n) h = absurd (cc)
same_int→eq (negsuc m) (pos n) h = absurd (cc)
same_int→eq (negsuc m) (negsuc n) h = ap (λ (k : ℕ). negsuc k) ((==_iff m n).0 h)

same_int_refl : (a : ℤ) → same_int a a ≡ true
same_int_refl (pos n) = (==_iff n n).1 refl
same_int_refl (negsuc n) = (==_iff n n).1 refl

both : (a b : Bool) (h : (a && b) ≡ true) → (a ≡ true) × (b ≡ true)
both true b h = (refl, h)
both false b h = absurd (cc)

pub same_core→eq : (a b : CoreId) (h : same_core a b ≡ true) → a ≡ b
same_core→eq a b h =
    let (p, c) = both (same_int a.physical b.physical) (same_int a.core b.core) h in
    ap₂ (λ (x y : ℤ). record { physical = x; core = y }) (same_int→eq a.physical b.physical p)
      (same_int→eq a.core b.core c)

pub same_core_refl : (a : CoreId) → same_core a a ≡ true
same_core_refl a = ap₂ (λ (x y : Bool). x && y) (same_int_refl a.physical) (same_int_refl a.core)

pub same_core_sym : (a b : CoreId) (h : same_core a b ≡ false) → same_core b a ≡ false
same_core_sym a b h = elim (Bool-cases (same_core b a)) [
  | inl t ↦
      let e : same_core a b ≡ true =
        ap (λ (c : CoreId). same_core a c) (same_core→eq b a t) ∙ same_core_refl a in
      absurd (cc)
  | inr f ↦ f
]

unfoldable pub add_all : List Thread → Cores → Cores
add_all [] t = t
add_all ((id, n) ∷ ts) t = add_all ts (add_thread id n t)

add_all-append :
    (ts us : List Thread) (t : Cores) → add_all (ts ++ us) t ≡ add_all us (add_all ts t)
unfolding add_all
add_all-append [] us t = refl
add_all-append ((id, n) ∷ ts) us t = add_all-append ts us (add_thread id n t)

flush-add_all : (c : Collector) (t : Cores) → flush c t ≡ add_all (finished c) t
unfolding flush add_all
flush-add_all c t = by_sign c.logical_processor c.core_id
  where
    by_sign :
        (v : ℤ) (id : CoreId)
        → flush (record { logical_processor = v; core_id = id }) t
          ≡ add_all (finished (record { logical_processor = v; core_id = id })) t
    by_sign (pos n) id = refl
    by_sign (negsuc n) id = refl

pub collect-add_all :
    (c : Collector) (t : Cores) (ls : List Line) → collect c t ls ≡ add_all (threads c ls) t
unfolding collect
collect-add_all c t [] = flush-add_all c t
collect-add_all c t (processor v ∷ ls) =
    let fresh : Collector = record { logical_processor = v; core_id = no_core } in
    collect-add_all fresh (flush c t) ls
    ∙ ap (λ (u : Cores). add_all (threads fresh ls) u) (flush-add_all c t)
    ∙ sym (add_all-append (finished c) (threads fresh ls) t)
collect-add_all c t (physical_id v ∷ ls) =
    collect-add_all (record c { core_id = record c.core_id { physical = v } }) t ls
collect-add_all c t (Line.core_id v ∷ ls) =
    collect-add_all (record c { core_id = record c.core_id { core = v } }) t ls
collect-add_all c t (other ∷ ls) = collect-add_all c t ls
