-- ===== src/Affinity/FreeBsd.antt =====
-- turf/impl/Affinity_FreeBSD.cpp: the table of cores, from the topology that the processor reports.
-- The `cpuid` instruction and `pthread_setaffinity_np` are parameters. The static variables of
-- `getTopology` are passed on from call to call.
pub mod Masks
pub mod Ids
pub mod Whole
mod Tests
use turf.Prelude.{
  ℕ, zero, suc, ◌+◌, ◌-◌, ◌*◌, ◌/◌, ◌%◌, ◌^◌, ltb, leb, ◌==◌, if◌then◌else◌, bit_and, bit_xor, Bool,
  true, false, ◌&&◌, ◌||◌, not, Option, none, some, List, [], ◌∷◌,
}
use turf.Affinity
use turf.Affinity.{ℤ, pos, negsuc, CoreId, Collector, Cores, Affinity, no_core, no_cores, finish}

-- `cpu_regs_t`
pub record Regs : Type 0 where
  pub eax : ℕ
  pub ebx : ℕ
  pub ecx : ℕ
  pub edx : ℕ

-- `cpuid`, by what is in EAX and ECX; none where the processor does not support it.
abbrev pub Cpuid : Type 0
Cpuid = ℕ → ℕ → Option Regs

-- `x2apic_level_t`
pub record Level : Type 0 where
  pub mask : ℕ
  pub reported : Bool

-- `socket`, `core` and `thread`
pub record Levels : Type 0 where
  pub socket : Level
  pub core : Level
  pub thread : Level

abbrev pub no_level : Level
no_level = record { mask = 0; reported = false }

abbrev pub no_levels : Levels
no_levels = record { socket = no_level; core = no_level; thread = no_level }

-- `for (c = 0; v; c++) v >>= 1`; a word is 0 after 32 rounds.
pub shift_loop : ℕ → ℕ → ℕ → ℕ
shift_loop zero c v = c
shift_loop (suc n) c v = let rest = shift_loop n (c + 1) (v / 2) in if v == 0 then c else rest

pub ctz : ℕ → ℕ
ctz v = if v == 0 then 32 else shift_loop 32 0 (bit_xor v (v - 1) / 2)

-- `~((-1) << s)`
abbrev pub low_mask : ℕ → ℕ
low_mask s = 2 ^ s - 1

-- `(-1) ^ mask`
abbrev pub inverted : ℕ → ℕ
inverted mask = bit_xor (2 ^ 32 - 1) mask

-- The `switch`.
abbrev pub set_level : ℕ → ℕ → Levels → Levels
set_level level shift l =
    if level == 1
    then record l { thread = record { mask = low_mask shift; reported = true } }
    else (if level == 2
        then record l {
          core = record { mask = low_mask shift; reported = true };
          socket = record l.socket { mask = inverted (low_mask shift) };
        }
        else l)

-- How a loop over the levels ends.
pub data Scan : Type 0 where
  scanned : Levels → Scan
  unsupported : Levels → Scan
  out_of_rounds : Scan

-- The loop over the sub-leaves from `i` on.
pub scan : Cpuid → ℕ → ℕ → Levels → Scan
scan cpuid zero i l = out_of_rounds
scan cpuid (suc n) i l = elim (cpuid 11 i) [
  | none ↦ unsupported l
  | some regs ↦
      let level = regs.ecx / 2 ^ 8 % 2 ^ 8 in
      elim ((regs.eax == 0 && regs.ebx == 0) || (level == 0)) [
        | true ↦ scanned l
        | false ↦ scan cpuid n (i + 1) (set_level level (regs.eax % 2 ^ 5) l)
      ]
]

-- What a call of `getTopology` does: it returns true with the two numbers, or false; or it shifts by
-- the width of the word, which the language leaves undefined.
pub data Topology : Type 0 where
  found : ℕ → ℕ → Topology
  unknown : Topology
  undefined_shift : Topology
  unending : Topology

-- The last lines of `getTopology`.
pub locate : ℕ → Levels → Topology
unfolding ctz
locate id l =
    let socket_shift = ctz l.socket.mask in
    let core_shift = ctz l.core.mask in
    if ltb socket_shift 32 && ltb core_shift 32
    then found (bit_and id l.socket.mask / 2 ^ socket_shift)
        (bit_and id l.core.mask / 2 ^ core_shift)
    else undefined_shift

-- After the loop: the masks are completed, or the topology is unknown.
abbrev pub complete : Levels → Option Levels
complete l =
    let known : Levels → Levels = λ m. record m { socket = record m.socket { reported = true } } in
    if l.thread.reported && l.core.reported
    then some
        (known (record l { core = record l.core { mask = bit_xor l.core.mask l.thread.mask } }))
    else (if l.thread.reported && not l.core.reported
        then some (
            known (record l {
              core = record l.core { mask = 0 };
              socket = record l.socket { mask = inverted l.thread.mask };
            }))
        else none)

-- The part of `getTopology` under `if (!socket.reported)`, and the end.
pub with_levels : Cpuid → ℕ → ℕ → Levels → Topology × Levels
unfolding scan locate
with_levels cpuid rounds id l =
    if l.socket.reported then (locate id l, l) else elim (scan cpuid rounds 0 l) [
      | out_of_rounds ↦ (unending, l)
      | unsupported m ↦ (unknown, m)
      | scanned m ↦ elim (complete m) [ none ↦ (unknown, m) | some k ↦ (locate id k, k) ]
    ]

pub get_topology : Cpuid → ℕ → Levels → Topology × Levels
unfolding with_levels
get_topology cpuid rounds l = elim (cpuid 0 0) [
  | none ↦ (unknown, l)
  | some regs ↦ if ltb regs.eax 11 then (unknown, l) else elim (cpuid 11 0) [
    | none ↦ with_levels cpuid rounds 0 l
    | some top ↦ with_levels cpuid rounds top.edx l
  ]
]

-- A word as `s32`.
abbrev pub to_int : ℕ → ℤ
to_int v = if ltb v (2 ^ 31) then pos v else negsuc (2 ^ 32 - 1 - v)

-- How the loop of the constructor ends.
pub data Built : Type 0 where
  built : Affinity → Built
  undefined : Built
  out_of_steps : Built

-- `coreID` after the call of `getTopology`.
abbrev pub core_of : ℕ → ℕ → CoreId
core_of physical core = record { physical = to_int physical; core = to_int core }

-- The loop over the logical processors from `p` on; `allowed` is `setAffinityRaw`, after which
-- `cpu p` is the instruction on that processor.
pub build : (ℕ → Bool) → (ℕ → Cpuid) → ℕ → ℕ → ℕ → Levels → Cores → Built
unfolding get_topology
build allowed cpu rounds zero p l t = out_of_steps
build allowed cpu rounds (suc n) p l t =
    let r = get_topology (cpu p) rounds l in
    let flushed : CoreId → Cores =
      λ id. Affinity.flush (record { logical_processor = to_int p; core_id = id }) t in
    elim (allowed p) [
      | false ↦ built (finish t)
      | true ↦ elim r.0 [
        | found physical core ↦
            build allowed cpu rounds n (p + 1) r.1 (flushed (core_of physical core))
        | unknown ↦ build allowed cpu rounds n (p + 1) r.1 (flushed no_core)
        | undefined_shift ↦ undefined
        | unending ↦ out_of_steps
      ]
    ]

pub affinity : (ℕ → Bool) → (ℕ → Cpuid) → ℕ → ℕ → Built
unfolding build
affinity allowed cpu rounds steps = build allowed cpu rounds steps 0 no_levels no_cores
