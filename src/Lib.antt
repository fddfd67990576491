-- ===== src/Lib.antt =====
-- Verification of turf, a C and C++ library that adapts a program to its platform: atomic
-- operations, threads and locks, memory, and the helpers that stand on them.
--
-- The parts, and which file models which:
-- Util/Hash: `avalanche` and `deavalanche` of turf/Util.h. Util/Word: `align`, `roundUpPowerOf2`,
-- `isPowerOf2` and `countSetBits` of the same file.
-- BitField: members of a word, and arrays of them, of turf/BitField.h.
-- Atomic: the atomic operations of C. Atomic/Bus is one cell, as a thread sees it while others
-- store to it: each access to the cell is one step of a state monad, before which the others may
-- have stored. Atomic/Ops is the interface that a platform header provides, and what it promises.
-- Atomic/X86 models turf/c/impl/atomic_gcc_x86-64.h and Atomic/X86/Wide its section for 64 bits on
-- a 32-bit processor; Atomic/Msvc models turf/c/impl/atomic_msvc.h; Atomic/Arm models
-- turf/c/impl/atomic_gcc_arm.h, Atomic/Arm/Thumb and Atomic/Arm/Pair the functions of
-- turf/c/impl/atomic_gcc_arm.c. Atomic/Ordered models the operations with a memory order of
-- turf/c/atomic.h, over any platform of Atomic/Ops, and Atomic/Ordered/Sections and
-- Atomic/Ordered/Platforms put it together with the headers of x86 and of ARM; Atomic/Ordered/Native models the classes of
-- turf/impl/Atomic_Native.h over them.
-- JobDispatcher/System: the worker threads of turf/extra/JobDispatcher.h and the gates of
-- turf/extra/SpinKicker.h, as a step relation in which an access to a gate is a step.
-- JobDispatcher/Invariant, JobDispatcher/Safety and JobDispatcher/Progress are about its reachable
-- states. JobDispatcher/Resize models `kick`, `kickOne`, `kickMulti` and `setNumSpawnedThreads` as
-- they change the number of threads and the action. JobDispatcher/Pool is the step relation in which
-- `setNumSpawnedThreads` also starts threads and lets threads exit, and joins them; there the stores of a
-- kick to the action, its parameter and the filter are one step, since no worker reads them outside of
-- a kick.
-- SpinLock: the threads of turf/impl/Mutex_SpinLock.h, likewise as a step relation.
-- LazyMutex: the threads of turf/impl/Mutex_LazyInit.h, with the flag, the spin lock and the
-- buffer.
-- RaceDetector: the threads of turf/RaceDetector.h.
-- ManualResetEvent: the threads of turf/impl/ManualResetEvent_CondVar.h.
-- Random: turf/extra/Random.h and turf/extra/Random.cpp, with what the clock, the timer and the
-- thread give as arguments.
-- TimeWaster: turf/extra/TimeWaster.cpp, with the random words as arguments.
-- Sequence: `UniqueSequence` of turf/extra/UniqueSequence.h. Numbers has what its square modulo a
-- prime needs: congruence, binomial coefficients, primality by trial division and Fermat's little
-- theorem.
-- Trace/MemLog: `Trace_MemLog` of turf/impl/Trace_MemLog.h and turf/impl/Trace_MemLog.cpp, its
-- pages, `log`, `dumpStats` and `dumpEntireLog` for one thread at a time; Trace/MemLog/Walk is its
-- iterator, and Trace/MemLog/Shared its threads that log at the same time, in which an access to a page
-- that was deleted may read anything and change what any page holds.
-- Trace/Counters: the groups of counters of turf/impl/Trace_Counters.h and
-- turf/impl/Trace_Counters.cpp and what is printed of them; Trace/Counters/Shared the threads that add
-- groups, and print them, at the same time.
-- Affinity: the table of cores of turf/impl/Affinity_Linux.h and turf/impl/Affinity_Linux.cpp.
-- Affinity/FreeBsd: the table of turf/impl/Affinity_FreeBSD.cpp, with `getTopology`.
-- Options: `parse` of turf/extra/Options.cpp with the option tables, and Options/Integer
-- `getInteger` of the same file. An argument that ends the program is an outcome. Options/Words
-- writes out the command lines by their grammar.
-- Prelude and Bits: shared names, lists, families indexed by a thread, and the digits of `&`, `|`
-- and `^`.
--
-- A word of `w` bits is a natural number below `2 ^ w`, and every operation that can wrap has its
-- `% 2 ^ w` written out; a signed operand stands as the word that represents it. A loop of the
-- atomic operations is given a number of rounds, which stays a variable, since the other threads
-- can keep it from ending; Atomic/Arm/Live is about when it ends. `countSetBits` is given 65
-- rounds, which is enough for every 64-bit mask. The instructions that assembly names (`lock
-- cmpxchg`, `ldrex`, `strex`) are modelled by what the processor's manual says they do to one
-- cell; a fence is an event in the log, and what a weak memory model makes of it is not modelled.
-- The accesses of threads to shared memory are taken in one order. The iterator is given as many rounds
-- as `dumpStats` prints, the loop of the trace counters as many as there are groups, and the loop of
-- the time waster as many as its table has values. The intrinsics of MSVC are parameters with the documented behaviour of the
-- compare-exchange as hypothesis, of which the memory barrier is left out; the platform's mutex and condition variable stand in the step relations by what they
-- promise. `cpuid` is a parameter, and the loop of `getTopology` over its answers is given a number of
-- rounds, of which three are enough for a processor with two levels; the loop over the processors ends
-- at the first that cannot be chosen. `strtol` is the C library's, for a `long` of 64 bits.
--
-- Not modelled: the wrappers of the operating system's threads, locks, timers and memory, and the
-- affinities of systems other than Linux and FreeBSD, which mostly call it; the accesses of the class
-- of atomics that are not atomic, and those of its methods that only call an operation; `dlmalloc`,
-- which is another project's; `getDouble` and the sample programs; the destructor of `Mutex_LazyInit`; the
-- filling of the time waster's table.
pub mod Prelude
pub mod Bits
pub mod Util
pub mod BitField
pub mod Atomic
pub mod JobDispatcher
pub mod Affinity
pub mod LazyMutex
pub mod ManualResetEvent
pub mod Numbers
pub mod Options
pub mod RaceDetector
pub mod Random
pub mod Sequence
pub mod SpinLock
pub mod TimeWaster
pub mod Trace
