-- ===== src/Common/Decimal.antt =====
-- Numbers in decimal, as `%d` and `strconv.AppendUint` print them, and what they read back to.
use Prim.Native.Nat.{ℕ, zero, suc, ◌+◌, ◌*◌, ◌/◌, ◌%◌, ◌-◌, ◌<◌}
use mathlib.Core.Path.{◌≡◌, sym, ap, ◌∙◌}
use mathlib.Core.List.{[], ◌∷◌, reverse, reverse-reverse}
use native.Mathlib.Omega.{arith}
use ruseon_core.Common.Tests.{ltb, if◌then◌else◌}
use ruseon_core.Common.Bytes.{Bytes}

-- The digits, the last one first; each division shortens the number, so that `n + 1` rounds are enough.
digits : ℕ → ℕ → Bytes
digits zero n = []
digits (suc f) n = let rest = digits f (n / 10) in (48 + n % 10) ∷ (if ltb n 10 then [] else rest)

unfoldable pub decimal : ℕ → Bytes
unfolding digits
decimal n = reverse (digits (suc n) n)

read_digits : Bytes → ℕ
read_digits [] = 0
read_digits (d ∷ ds) = d - 48 + 10 * read_digits ds

read_digits-digits : (f n : ℕ) → n < f → read_digits (digits f n) ≡ n
unfolding read_digits digits
read_digits-digits zero n h = absurd (omega arith)
read_digits-digits (suc f) n h = ground (arith, read_digits-digits f (n / 10))

-- Different numbers print differently.
pub decimal_injective : (a b : ℕ) → decimal a ≡ decimal b → a ≡ b
unfolding decimal
decimal_injective a b e =
    sym (read_digits-digits (suc a) a (omega arith))
    ∙ ap read_digits (
        sym (reverse-reverse (digits (suc a) a))
        ∙ ap reverse e
        ∙ reverse-reverse (digits (suc b) b))
    ∙ read_digits-digits (suc b) b (omega arith)
