-- ===== src/Atomic/Bus/Laws.antt =====
-- What one access changes, for every platform.
use turf.Prelude.{ℕ, ◌≡◌, ◌∙◌, ap, List, ◌∷◌, true, some, arith, suc}
use turf.Atomic.Bus.{
  Event, mine, Bus, arrive, put, read, write, own, own-arrive, Replaced, Observed, IsQuiet,
}
use turf.Atomic.Ops.{Stores}

-- What this thread has stored before it gives up a round counts for the next one.
pub Replaced-later :
    {f : ℕ → ℕ} (b c : Bus) {b' : Bus} {x : ℕ}
    → own c.log ≡ own b.log
    → Replaced f c x b'
    → Replaced f b x b'
Replaced-later {f} b c {b'} {x} e r = record {
  cell = r.cell;
  once = r.once ∙ ap (λ (l : List Event). mine x (f x) ∷ l) e;
}

pub put-Replaced :
    (f : ℕ → ℕ) (b c : Bus) (x : ℕ)
    → own c.log ≡ own b.log
    → c.cell ≡ x
    → Replaced f b x (put (f x) c)
unfolding put
put-Replaced f b c x e h = ground arith

-- A step of the others moves the clock by one and keeps their plan.
pub arrive-time : (b : Bus) → ((arrive b).now ≡ suc b.now) × ((arrive b).others ≡ b.others)
unfolding arrive
arrive-time b = ground arith

pub arrive-quiet :
    (b : Bus)
    → IsQuiet (b.others b.now)
    → ((arrive b).cell ≡ b.cell) × ((arrive b).monitor ≡ b.monitor)
unfolding arrive
arrive-quiet b q = ground (arith, q.silent, q.kept)

-- While the monitor is held, nobody has stored to the cell.
pub arrive-monitor : (b : Bus) → (arrive b).monitor ≡ true → (arrive b).cell ≡ b.cell
unfolding arrive
arrive-monitor b h = ground arith

pub read-Observed : (b b' : Bus) (x : ℕ) → read b ≡ some (x, b') → Observed b x b'
unfolding read
read-Observed b b' x h = ground (arith, own-arrive b)

pub write-Stores : (v : ℕ) → Stores v (write v)
unfolding write put
write-Stores v b b' h = ((arrive b).cell, ground (arith, own-arrive b))

pub Replaced-ext :
    (f g : ℕ → ℕ) (b b' : Bus) (x : ℕ) → f x ≡ g x → Replaced f b x b' → Replaced g b x b'
Replaced-ext f g b b' x e r = record {
  cell = r.cell ∙ e;
  once = r.once ∙ ap (λ (v : ℕ). mine x v ∷ own b.log) e;
}

-- Two accesses later the plan of the others is the same.
pub arrive_twice-time :
    (b c : Bus)
    → c.now ≡ (arrive b).now
    → c.others ≡ (arrive b).others
    → ((arrive c).now ≡ suc (suc b.now)) × ((arrive c).others ≡ b.others)
arrive_twice-time b c t o = ground (arith, arrive-time b, arrive-time c)

pub IsQuiet-at :
    (b c : Bus) (t u : ℕ)
    → b.others ≡ c.others
    → t ≡ u
    → IsQuiet (b.others t)
    → IsQuiet (c.others u)
IsQuiet-at b c t u e k q = rw (← e, ← k) q
