-- ===== src/Common/Go.antt =====
-- Go's run-time behaviour that the models share: calls that panic or block, buffered channels,
-- and 64-bit unsigned arithmetic.
use Prim.Native.Nat.{ℕ, ◌+◌, ◌%◌, ◌^◌, ◌<◌}
use mathlib.Core.Bool.{Bool, true, false}
use mathlib.Core.List.{List, [], ◌∷◌, ◌++◌}
use native.Mathlib.Omega.{arith}
use ruseon_core.Common.Tests.{ltb, if◌then◌else◌}
use ruseon_core.Common.Lists.{length}

-- What a call does: it returns, it panics, or it waits and no step of its own can free it.
pub data Outcome {ℓ} (A : Type ℓ) : Type ℓ where
  returns : A → Outcome A
  panics : Outcome A
  blocks : Outcome A

infixl 5 ◌>>=◌
abbrev pub ◌>>=◌ {ℓ κ} : {A : Type ℓ} {B : Type κ} → Outcome A → (A → Outcome B) → Outcome B
returns a >>= f = f a
panics >>= f = panics
blocks >>= f = blocks

-- A buffered channel: what waits in it, oldest first.
pub record Chan {ℓ} (A : Type ℓ) : Type ℓ where
  pub queue : List A
  pub cap : ℕ
  pub closed : Bool

module _ {ℓ} {A : Type ℓ} where
  -- `make(chan A, cap)`
  abbrev pub make_chan : ℕ → Chan A
  make_chan n = record { queue = []; cap = n; closed = false }

  -- `select { case c <- a: … default: … }`: true if the value went in.
  unfoldable pub try_send : A → Chan A → Outcome (Chan A × Bool)
  try_send a c =
      if c.closed
      then panics
      else if ltb (length c.queue) c.cap
      then returns (record c { queue = c.queue ++ (a ∷ []) }, true)
      else returns (c, false)

  -- `c <- a`, with nobody at the other end yet.
  unfoldable pub send : A → Chan A → Outcome (Chan A)
  send a c =
      if c.closed
      then panics
      else if ltb (length c.queue) c.cap
      then returns (record c { queue = c.queue ++ (a ∷ []) })
      else blocks

  -- `close(c)`
  unfoldable pub close_chan : Chan A → Outcome (Chan A)
  close_chan c = if c.closed then panics else returns (record c { closed = true })

abbrev pub two64 : ℕ
two64 = 2 ^ 64

-- `uint64` addition wraps.
abbrev pub add64 : ℕ → ℕ → ℕ
add64 a b = (a + b) % two64

pub add64_lt : (a b : ℕ) → add64 a b < two64
add64_lt a b = omega arith
