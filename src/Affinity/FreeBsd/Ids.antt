-- ===== src/Affinity/FreeBsd/Ids.antt =====
-- What `getTopology` finds on a processor that reports two levels.
use native.Mathlib.Nat.{mod-eq_of_lt, div-lt_iff_lt-mul}
use turf.Prelude.{
  ℕ, suc, ◌+◌, ◌-◌, ◌*◌, ◌/◌, ◌%◌, ◌^◌, ◌<◌, ltb, ◌==◌, if◌then◌else◌, lt→ltb, bit_and, bit_xor,
  Bool, true, false, ◌&&◌, ◌||◌, some, ◌≡◌, refl, ap, ap₂, ◌∙◌, arith,
}
use turf.Bits.Xor.{xor_self}
use turf.Bits.Test.{two_pow_add}
use turf.Affinity.FreeBsd.{
  Regs, Cpuid, Levels, no_levels, low_mask, inverted, set_level, scan, ctz, scanned, found,
  undefined_shift, locate, with_levels, get_topology,
}
use turf.Affinity.FreeBsd.Masks.{field, low-xor-low, field_cut, ctz-field, positive}

-- The processor with id `id` reports `t` bits of thread number and `c` bits below the package.
pub record Reports (t c id : ℕ) (cpuid : Cpuid) : Type 0 where
  pub first : Regs
  pub threads : Regs
  pub cores : Regs
  pub last : Regs
  pub at_first : cpuid 0 0 ≡ some first
  pub at_threads : cpuid 11 0 ≡ some threads
  pub at_cores : cpuid 11 1 ≡ some cores
  pub at_last : cpuid 11 2 ≡ some last
  pub leaves : ltb first.eax 11 ≡ false
  pub own_id : threads.edx ≡ id
  pub some_threads : (threads.ebx == 0) ≡ false
  pub thread_level : threads.ecx / 2 ^ 8 % 2 ^ 8 ≡ 1
  pub thread_bits : threads.eax % 2 ^ 5 ≡ t
  pub some_cores : (cores.ebx == 0) ≡ false
  pub core_level : cores.ecx / 2 ^ 8 % 2 ^ 8 ≡ 2
  pub core_bits : cores.eax % 2 ^ 5 ≡ c
  pub no_more : last.ecx / 2 ^ 8 % 2 ^ 8 ≡ 0

-- The levels that it keeps.
abbrev pub kept : ℕ → ℕ → Levels
kept t c = record {
  socket = record { mask = inverted (low_mask c); reported = true };
  core = record { mask = bit_xor (low_mask c) (low_mask t); reported = true };
  thread = record { mask = low_mask t; reported = true };
}

any_and_false : (a : Bool) → (a && false) ≡ false
any_and_false true = refl
any_and_false false = refl

any_or_true : (a : Bool) → (a || true) ≡ true
any_or_true true = refl
any_or_true false = refl

scan_level :
    (cpuid : Cpuid) (n i k s : ℕ) (l : Levels) (regs : Regs) (reported : cpuid 11 i ≡ some regs)
    (used : (regs.ebx == 0) ≡ false) (level : regs.ecx / 2 ^ 8 % 2 ^ 8 ≡ suc k)
    (bits : regs.eax % 2 ^ 5 ≡ s)
    → scan cpuid (suc n) i l ≡ scan cpuid n (i + 1) (set_level (suc k) s l)
unfolding scan
scan_level cpuid n i k s l regs reported used level bits =
    let more : (regs.ecx / 2 ^ 8 % 2 ^ 8 == 0) ≡ false = ground (arith, level) in
    rw (reported, used, any_and_false (regs.eax == 0), more, scan)
      (ap₂ (λ (m b : ℕ). scan cpuid n (i + 1) (set_level m b l)) level bits)

scan_end :
    (cpuid : Cpuid) (n i : ℕ) (l : Levels) (regs : Regs) (reported : cpuid 11 i ≡ some regs)
    (level : regs.ecx / 2 ^ 8 % 2 ^ 8 ≡ 0)
    → scan cpuid (suc n) i l ≡ scanned l
unfolding scan
scan_end cpuid n i l regs reported level =
    rw (reported, level, any_or_true (regs.eax == 0 && regs.ebx == 0), scan) refl

abbrev scanned_levels : ℕ → ℕ → Levels
scanned_levels t c = record {
  socket = record { mask = inverted (low_mask c); reported = false };
  core = record { mask = low_mask c; reported = true };
  thread = record { mask = low_mask t; reported = true };
}

scan-Reports :
    (t c id n : ℕ) (cpuid : Cpuid) (r : Reports t c id cpuid)
    → scan cpuid (suc (suc (suc n))) 0 no_levels ≡ scanned (scanned_levels t c)
scan-Reports t c id n cpuid r =
    scan_level cpuid (suc (suc n)) 0 0 t no_levels r.threads r.at_threads r.some_threads
      r.thread_level r.thread_bits
    ∙ scan_level cpuid (suc n) 1 1 c _ r.cores r.at_cores r.some_cores r.core_level r.core_bits
    ∙ scan_end cpuid n 2 _ r.last r.at_last r.no_more

with_levels-Reports :
    (t c id n : ℕ) (cpuid : Cpuid) (r : Reports t c id cpuid)
    → with_levels cpuid (suc (suc (suc n))) id no_levels ≡ (locate id (kept t c), kept t c)
unfolding with_levels
with_levels-Reports t c id n cpuid r = rw (scan-Reports t c id n cpuid r, scan) refl

own_levels :
    (t c id rounds : ℕ) (cpuid : Cpuid) (r : Reports t c id cpuid) (l : Levels)
    → get_topology cpuid rounds l ≡ with_levels cpuid rounds id l
unfolding get_topology
own_levels t c id rounds cpuid r l =
    rw (r.at_first, r.leaves, r.at_threads, get_topology)
      (ap (λ (k : ℕ). with_levels cpuid rounds k l) r.own_id)

-- The levels that the static variables hold, before the first call that reads them and after it.
abbrev pub levels_after : Bool → ℕ → ℕ → Levels
levels_after known t c = if known then kept t c else no_levels

-- A processor of which the levels are known, or that reports them, is located with its id.
pub get_topology-Reports :
    (t c id n : ℕ) (cpuid : Cpuid) (r : Reports t c id cpuid) (known : Bool)
    → get_topology cpuid (suc (suc (suc n))) (levels_after known t c)
      ≡ (locate id (kept t c), kept t c)
unfolding with_levels
get_topology-Reports t c id n cpuid r true =
    own_levels t c id (suc (suc (suc n))) cpuid r (kept t c)
get_topology-Reports t c id n cpuid r false =
    own_levels t c id (suc (suc (suc n))) cpuid r no_levels ∙ with_levels-Reports t c id n cpuid r

high_mask : (c : ℕ) (lt : c < 32) → inverted (low_mask c) ≡ field c 32
high_mask c lt = low-xor-low c 32 (omega (arith, lt))

upper_field : (id c : ℕ) (lt : c < 32) (word : id < 2 ^ 32) → id / 2 ^ c % 2 ^ (32 - c) ≡ id / 2 ^ c
upper_field id c lt word =
    let whole : 2 ^ 32 ≡ 2 ^ (32 - c) * 2 ^ c =
      let e : 32 ≡ 32 - c + c = omega (arith, lt) in
      ap (λ (k : ℕ). 2 ^ k) e ∙ two_pow_add (32 - c) c in
    let below : id < 2 ^ (32 - c) * 2 ^ c = omega (arith, whole, word) in
    mod-eq_of_lt ((div-lt_iff_lt-mul (positive c)).1 below)

shifts_found :
    (id : ℕ) (l : Levels) (s c : ℕ) (es : ctz l.socket.mask ≡ s) (ec : ctz l.core.mask ≡ c)
    (ls : s < 32) (lc : c < 32)
    → locate id l ≡ found (bit_and id l.socket.mask / 2 ^ s) (bit_and id l.core.mask / 2 ^ c)
unfolding locate
shifts_found id l s c es ec ls lc = rw (es, ec, lt→ltb s 32 ls, lt→ltb c 32 lc) refl

pub locate_kept :
    (t c id : ℕ) (some_core : t < c) (lt : c < 32) (word : id < 2 ^ 32)
    → locate id (kept t c) ≡ found (id / 2 ^ c) (id / 2 ^ t % 2 ^ (c - t))
locate_kept t c id some_core lt word =
    let core : bit_xor (low_mask c) (low_mask t) ≡ field t c = low-xor-low t c (omega arith) in
    shifts_found id (kept t c) c t (ap ctz (high_mask c lt) ∙ ctz-field c 32 lt (omega arith))
      (ap ctz core ∙ ctz-field t c some_core (omega arith)) lt (omega arith)
    ∙ ap₂ found
        (ap (λ (k : ℕ). bit_and id k / 2 ^ c) (high_mask c lt)
          ∙ field_cut id c 32 (omega arith)
          ∙ upper_field id c lt word)
        (ap (λ (k : ℕ). bit_and id k / 2 ^ t) core ∙ field_cut id t c (omega arith))

-- With one core in a package, the mask of the core has no digit.
pub locate_single : (t id : ℕ) → locate id (kept t t) ≡ undefined_shift
unfolding locate ctz
locate_single t id =
    let e : bit_xor (low_mask t) (low_mask t) ≡ 0 = xor_self (low_mask t) in
    rw (e, any_and_false) refl
