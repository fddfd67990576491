-- ===== src/RaceDetector.antt =====
-- turf/RaceDetector.h: threads that enter and leave a guarded section.
pub mod Safety
mod Tests
use turf.Prelude.{ℕ, suc, ◌+◌, Bool, true, false, ◌≡◌, update}

-- Before the constructor of the guard and after its destructor, or between.
pub data Pc : Type 0 where
  outside inside : Pc

-- `breaks` counts the calls of TURF_DEBUG_BREAK.
pub record System : Type 0 where
  pub entered : Bool
  pub breaks : ℕ
  pub pc : ℕ → Pc

-- The exchange of the constructor, with its test, and the store of the destructor.
pub data Turn (s : System) (i : ℕ) : Pc → System → Type 0 where
  enter :
      s.entered ≡ false → Turn s i outside (record s { entered = true; pc = update s.pc i inside })
  enter_again :
      s.entered ≡ true
      → Turn s i outside
          (record s { entered = true; breaks = s.breaks + 1; pc = update s.pc i inside })
  leave : Turn s i inside (record s { entered = false; pc = update s.pc i outside })

abbrev pub init : System
init = record { entered = false; breaks = 0; pc = λ i. outside }

pub data Reach : System → Type 0 where
  here : Reach init
  next : {s t : System} (i : ℕ) → Reach s → Turn s i (s.pc i) t → Reach t
