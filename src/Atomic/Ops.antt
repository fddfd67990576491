-- ===== src/Atomic/Ops.antt =====
-- The operations that a platform header provides for one width, and what they promise.
use turf.Prelude.{ℕ, ◌+◌, ◌%◌, ◌^◌, ◌<◌, Bool, true, false, bit_and, bit_or, some, ◌≡◌, ◌≢◌, ◌⊎◌}
use turf.Atomic.Bus.{Bus, M, own, Replaced, Observed}

-- `fetchAdd` takes its signed operand as the word that stands for it. `compareExchangeWeak` yields
-- whether it matched and what `*expected` holds afterwards.
pub record Relaxed : Type 0 where
  pub load : M ℕ
  pub store : ℕ → M (Unit {0})
  pub compare_exchange : ℕ → ℕ → M ℕ
  pub compare_exchange_weak : ℕ → ℕ → M (Bool × ℕ)
  pub exchange : ℕ → M ℕ
  pub fetch_add : ℕ → M ℕ
  pub fetch_and : ℕ → M ℕ
  pub fetch_or : ℕ → M ℕ

-- What each operation makes of the value in the cell, at width `w`.
abbrev pub always : ℕ → ℕ → ℕ
always v x = v

abbrev pub add_word : ℕ → ℕ → ℕ → ℕ
add_word w operand x = (x + operand) % 2 ^ w

abbrev pub and_word : ℕ → ℕ → ℕ → ℕ
and_word w operand x = bit_and x operand % 2 ^ w

abbrev pub or_word : ℕ → ℕ → ℕ → ℕ
or_word w operand x = bit_or x operand % 2 ^ w

-- The operations that change the cell on any value of it.
pub data Rmw : Type 0 where
  op_exchange op_add op_and op_or : Rmw

abbrev pub rmw : Relaxed → Rmw → ℕ → M ℕ
rmw ops op_exchange = ops.exchange
rmw ops op_add = ops.fetch_add
rmw ops op_and = ops.fetch_and
rmw ops op_or = ops.fetch_or

abbrev pub meaning : ℕ → Rmw → ℕ → ℕ → ℕ
meaning w op_exchange = always
meaning w op_add = add_word w
meaning w op_and = and_word w
meaning w op_or = or_word w

-- What the standalone functions of ARM provide beside a compare-exchange.
pub data Fetch : Type 0 where
  of_add of_and of_or : Fetch

pub record Fetches : Type 0 where
  pub compare_exchange : ℕ → ℕ → M ℕ
  pub fetch_add : ℕ → M ℕ
  pub fetch_and : ℕ → M ℕ
  pub fetch_or : ℕ → M ℕ

abbrev pub fetch : Fetches → Fetch → ℕ → M ℕ
fetch ops of_add = ops.fetch_add
fetch ops of_and = ops.fetch_and
fetch ops of_or = ops.fetch_or

abbrev pub as_rmw : Fetch → Rmw
as_rmw of_add = op_add
as_rmw of_and = op_and
as_rmw of_or = op_or

-- What a compare-exchange has done when it returns `x`: if that is `expected`, it has stored
-- `desired` over it, and if another value, nothing.
abbrev pub Outcome : ℕ → ℕ → Bus → ℕ → Bus → Type 0
Outcome expected desired b x b' =
    ((x ≡ expected) × Replaced (always desired) b x b') ⊎ ((x ≢ expected) × Observed b x b')

-- The same for a weak one, which may fail on `expected` and store nothing.
abbrev pub WeakOutcome : ℕ → ℕ → Bus → Bool → ℕ → Bus → Type 0
WeakOutcome expected desired b matched seen b' =
    ((matched ≡ true) × (seen ≡ expected) × Replaced (always desired) b expected b')
    ⊎ ((matched ≡ false) × (own b'.log ≡ own b.log))

-- If `m` returns, it has replaced the value that it returns in one atomic store.
abbrev pub Updates : (ℕ → ℕ) → M ℕ → Type 0
Updates f m = (b b' : Bus) (x : ℕ) → m b ≡ some (x, b') → Replaced f b x b'

-- If `m` returns `expected`, it has stored `desired` over it; if another value, nothing.
abbrev pub Compares : ℕ → ℕ → M ℕ → Type 0
Compares expected desired m =
    (b b' : Bus) (x : ℕ) → m b ≡ some (x, b') → Outcome expected desired b x b'

-- If `m` returns, the cell holds the value that it returns, and this thread has put no other
-- value there.
abbrev pub Reads : M ℕ → Type 0
Reads m = (b b' : Bus) (x : ℕ) → m b ≡ some (x, b') → Observed b x b' ⊎ Replaced (λ y. y) b x b'

-- If `m` returns, it has stored `v` once.
abbrev pub Stores : ℕ → M (Unit {0}) → Type 0
Stores v m = (b b' : Bus) → m b ≡ some (tt, b') → (x : ℕ) × Replaced (always v) b x b'

-- A weak exchange that reports success has replaced `expected` by `desired`; one that reports
-- failure has stored nothing.
abbrev pub ComparesWeak : ℕ → ℕ → M (Bool × ℕ) → Type 0
ComparesWeak expected desired m =
    (b b' : Bus) (matched : Bool) (seen : ℕ)
    → m b ≡ some ((matched, seen), b')
    → WeakOutcome expected desired b matched seen b'

pub record IsAtomic (w : ℕ) (ops : Relaxed) : Type 0 where
  pub load : Reads ops.load
  pub store : (v : ℕ) → v < 2 ^ w → Stores v (ops.store v)
  pub compare_exchange : (e d : ℕ) → e < 2 ^ w → d < 2 ^ w → Compares e d (ops.compare_exchange e d)
  pub compare_exchange_weak :
      (e d : ℕ) → e < 2 ^ w → d < 2 ^ w → ComparesWeak e d (ops.compare_exchange_weak e d)
  pub exchange : (d : ℕ) → d < 2 ^ w → Updates (always d) (ops.exchange d)
  pub fetch_add : (k : ℕ) → k < 2 ^ w → Updates (add_word w k) (ops.fetch_add k)
  pub fetch_and : (k : ℕ) → k < 2 ^ w → Updates (and_word w k) (ops.fetch_and k)
  pub fetch_or : (k : ℕ) → k < 2 ^ w → Updates (or_word w k) (ops.fetch_or k)

pub IsAtomic-rmw :
    (w : ℕ) (ops : Relaxed)
    → IsAtomic w ops
    → (op : Rmw) (k : ℕ) → k < 2 ^ w
    → Updates (meaning w op k) (rmw ops op k)
IsAtomic-rmw w ops laws op_exchange k fits = laws.exchange k fits
IsAtomic-rmw w ops laws op_add k fits = laws.fetch_add k fits
IsAtomic-rmw w ops laws op_and k fits = laws.fetch_and k fits
IsAtomic-rmw w ops laws op_or k fits = laws.fetch_or k fits
