-- ===== src/Atomic/Bus/Samples.antt =====
-- A cell that the other threads write to, as test data.
use turf.Prelude.{ℕ, false, none, some, ◌==◌, if◌then◌else◌, List, []}
use turf.Atomic.Bus.{Event, Turn, Bus}

-- In turn 1 the others store 7, and every wide read that may tear yields 9.
abbrev pub turns : ℕ → Turn
turns i = record { write = if i == 1 then some 7 else none; lose = false; torn = some 9 }

abbrev pub bus_at : ℕ → ℕ → List Event → Bus
bus_at cell now log = record { cell = cell; monitor = false; now = now; others = turns; log = log }

abbrev pub busy : Bus
busy = bus_at 5 0 []
