-- ===== src/Atomic/Bus.antt =====
-- One atomic cell, as a thread sees it while the others go on. Before each of its accesses the
-- others may store to the cell and may take its exclusive monitor away. The log holds the stores in
-- reverse order, each with the value that it replaced, and the fences of this thread.
pub mod Laws
pub mod Samples
use turf.Prelude.{
  ℕ, suc, Bool, true, false, not, ◌&&◌, ◌==◌, if◌then◌else◌, Option, none, some, List, [], ◌∷◌, ◌≡◌,
  refl, arith,
}

pub data Event : Type 0 where
  mine : (before after : ℕ) → Event
  theirs : (before after : ℕ) → Event
  acquire_fence release_fence : Event

-- What the others do before an access: the last value that they store, if any; whether the
-- monitor is lost for another reason; and what a plain read that is not atomic yields, if it tears.
pub record Turn : Type 0 where
  pub write : Option ℕ
  pub lose : Bool
  pub torn : Option ℕ

pub record Bus : Type 0 where
  pub cell : ℕ
  pub monitor : Bool
  pub now : ℕ
  pub others : ℕ → Turn
  pub log : List Event

-- `none` means that a loop has used up the rounds that it was given.
abbrev pub M : Type 0 → Type 0
M A = Bus → Option (A × Bus)

abbrev pub ret : {A : Type 0} → A → M A
ret a b = some (a, b)

infixl 5 ◌>>=◌ ◌>>◌
abbrev pub ◌>>=◌ : {A B : Type 0} → M A → (A → M B) → M B
◌>>=◌ m f b = elim (m b) [ none ↦ none | some (a, b') ↦ f a b' ]

abbrev pub ◌>>◌ : {A B : Type 0} → M A → M B → M B
m >> k = m >>= λ _. k

unfoldable pub arrive : Bus → Bus
arrive b =
    let t = b.others b.now in
    elim t.write [
      | none ↦ record b { now = suc b.now; monitor = b.monitor && not t.lose }
      | some v ↦ record b {
        cell = v;
        now = suc b.now;
        monitor = false;
        log = theirs b.cell v ∷ b.log;
      }
    ]

unfoldable pub put : ℕ → Bus → Bus
put v b = record b { cell = v; monitor = false; log = mine b.cell v ∷ b.log }

-- An aligned load or store of at most the width of a register.
unfoldable pub read : M ℕ
read b = let b' = arrive b in some (b'.cell, b')

unfoldable pub write : ℕ → M (Unit {0})
write v b = some (tt, put v (arrive b))

-- A plain read of more than a register, which may tear.
unfoldable pub read_torn : M ℕ
read_torn b =
    let b' = arrive b in
    elim (b.others b.now).torn [ none ↦ some (b'.cell, b') | some v ↦ some (v, b') ]

-- `lock; cmpxchg`: the previous value, and the zero flag.
unfoldable pub cmpxchg : ℕ → ℕ → M (ℕ × Bool)
cmpxchg expected desired b =
    let b' = arrive b in
    if b'.cell == expected
    then some ((b'.cell, true), put desired b')
    else some ((b'.cell, false), b')

-- One locked read-modify-write, as `xchg` and `lock; xadd` make it.
unfoldable pub modify : (ℕ → ℕ) → M ℕ
modify f b = let b' = arrive b in some (b'.cell, put (f b'.cell) b')

-- `ldrex` sets the monitor; `strex` stores if it is still set, and yields 0 then and 1 if not.
unfoldable pub ldrex : M ℕ
ldrex b = let b' = arrive b in some (b'.cell, record b' { monitor = true })

unfoldable pub strex : ℕ → M ℕ
strex v b = let b' = arrive b in if b'.monitor then some (0, put v b') else some (1, b')

unfoldable pub fence : Event → M (Unit {0})
fence e b = some (tt, record b { log = e ∷ b.log })

-- The stores and fences of this thread alone.
abbrev pub own : List Event → List Event
own [] = []
own (mine x y ∷ l) = mine x y ∷ own l
own (theirs x y ∷ l) = own l
own (acquire_fence ∷ l) = acquire_fence ∷ own l
own (release_fence ∷ l) = release_fence ∷ own l

-- This thread replaced `x` by `f x` in one store, and that is the last one.
pub record Replaced (f : ℕ → ℕ) (b : Bus) (x : ℕ) (b' : Bus) : Type 0 where
  pub cell : b'.cell ≡ f x
  pub once : own b'.log ≡ mine x (f x) ∷ own b.log

-- This thread has stored nothing, and `x` is what the cell held.
pub record Observed (b : Bus) (x : ℕ) (b' : Bus) : Type 0 where
  pub cell : b'.cell ≡ x
  pub never : own b'.log ≡ own b.log

-- In the turn before an access nobody stores and the monitor stays.
pub record IsQuiet (t : Turn) : Type 0 where
  pub silent : t.write ≡ none
  pub kept : t.lose ≡ false

pub own-arrive : (b : Bus) → own (arrive b).log ≡ own b.log
unfolding arrive
own-arrive b = ground arith

-- What a chain of two accesses that returns has done.
pub >>=-eq-some :
    {A B : Type 0} (m : M A) (f : A → M B) (b b' : Bus) (y : B)
    → (m >>= f) b ≡ some (y, b')
    → (x : A) × (c : Bus) × (m b ≡ some (x, c)) × (f x c ≡ some (y, b'))
>>=-eq-some {A} {B} m f b b' y h = go (m b) refl h
  where
    go :
        (r : Option (A × Bus))
        → m b ≡ r
        → ◌≡◌ {A = Option (B × Bus)} (elim r [ none ↦ none | some (a, c) ↦ f a c ]) (some (y, b'))
        → (x : A) × (c : Bus) × (m b ≡ some (x, c)) × (f x c ≡ some (y, b'))
    go none e k = cc
    go (some (a, c)) e k = (a, c, e, k)
