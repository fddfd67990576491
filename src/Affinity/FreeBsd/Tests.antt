-- ===== src/Affinity/FreeBsd/Tests.antt =====
-- Four hardware threads in two cores of one package, and a package with one core.
use turf.Prelude.{ℕ, zero, suc, ltb, lt→ltb, Bool, true, some, [], ◌∷◌, ◌≡◌, refl, arith}
use turf.Affinity.{finish, flush}
use turf.Affinity.FreeBsd.{Cpuid, built, undefined, affinity, shift_loop}
use turf.Affinity.Filled.{grouped}
use turf.Affinity.FreeBsd.Ids.{Reports}
use turf.Affinity.FreeBsd.Whole.{located, affinity-located, affinity_single_core}

-- The processor with this id; the arguments give the two shifts.
abbrev x2apic : ℕ → ℕ → ℕ → Cpuid
x2apic t c id zero sub = some (record { eax = 11; ebx = 0; ecx = 0; edx = 0 })
x2apic t c id (suc leaf) zero = some (record { eax = t; ebx = 2; ecx = 256; edx = id })
x2apic t c id (suc leaf) (suc zero) = some (record { eax = c; ebx = 4; ecx = 513; edx = id })
x2apic t c id (suc leaf) (suc (suc sub)) = some (record { eax = 0; ebx = 0; ecx = 2; edx = id })

abbrev four : ℕ → Bool
four p = ltb p 4

x2apic-Reports : (q : ℕ) → Reports 1 2 q (x2apic 1 2 q)
x2apic-Reports q = record {
  first = record { eax = 11; ebx = 0; ecx = 0; edx = 0 };
  threads = record { eax = 1; ebx = 2; ecx = 256; edx = q };
  cores = record { eax = 2; ebx = 4; ecx = 513; edx = q };
  last = record { eax = 0; ebx = 0; ecx = 2; edx = q };
  at_first = refl;
  at_threads = refl;
  at_cores = refl;
  at_last = refl;
  leaves = refl;
  own_id = refl;
  some_threads = refl;
  thread_level = refl;
  thread_bits = refl;
  some_cores = refl;
  core_level = refl;
  core_bits = refl;
  no_more = refl;
}

x2apic-single : Reports 0 0 0 (x2apic 0 0 0)
x2apic-single = record {
  first = record { eax = 11; ebx = 0; ecx = 0; edx = 0 };
  threads = record { eax = 0; ebx = 2; ecx = 256; edx = 0 };
  cores = record { eax = 0; ebx = 4; ecx = 513; edx = 0 };
  last = record { eax = 0; ebx = 0; ecx = 2; edx = 0 };
  at_first = refl;
  at_threads = refl;
  at_cores = refl;
  at_last = refl;
  leaves = refl;
  own_id = refl;
  some_threads = refl;
  thread_level = refl;
  thread_bits = refl;
  some_cores = refl;
  core_level = refl;
  core_bits = refl;
  no_more = refl;
}

affinity_of_four :
    affinity four (x2apic 1 2) 3 5
    ≡ built
        (record { is_accurate = true; cores = (0 ∷ 1 ∷ []) ∷ (2 ∷ 3 ∷ []) ∷ []; num_threads = 4 })
unfolding affinity shift_loop finish flush
affinity_of_four = refl

affinity-located_example :
    affinity four (x2apic 1 2) 3 5 ≡ built (grouped (located (λ q. q) 1 2 0 4))
affinity-located_example =
    affinity-located four (x2apic 1 2) (λ q. q) 1 2 0 4 5 (omega arith) (omega arith)
      (λ q lt. lt→ltb q 4 lt) refl (λ q lt. x2apic-Reports q) (omega arith) (omega arith)
      (λ q lt. omega (arith, lt))

affinity_single_core_example : affinity four (x2apic 0 0) 3 1 ≡ undefined
affinity_single_core_example = affinity_single_core four (x2apic 0 0) 0 0 0 0 refl x2apic-single
