-- ===== src/Prelude/Word.antt =====
-- Unsigned machine words as native numbers: a sum is taken modulo 2 ^ 64.
use Prim.Native.Nat.{ℕ, ◌+◌, ◌-◌, ◌%◌, ◌^◌}
use mathlib.Core.List.{List, [], ◌∷◌}
use Prim.Native.Char.{code}
use Prim.Native.String.{String}

abbrev pub u64_mod : ℕ
u64_mod = 2 ^ 64

-- `uint64_t` (and a 64-bit `size_t`): a + b, a - b and ++a.
abbrev pub add_u64 : ℕ → ℕ → ℕ
add_u64 a b = (a + b) % u64_mod

abbrev pub sub_u64 : ℕ → ℕ → ℕ
sub_u64 a b = (a + u64_mod - b) % u64_mod

abbrev pub inc_u64 : ℕ → ℕ
inc_u64 a = (a + 1) % u64_mod

-- A buffer of `char`, each as the `uint8_t` that it is read as.
abbrev pub Bytes : Type 0
Bytes = List ℕ

-- The bytes of a string literal of the source; all of them are ASCII.
abbrev pub codes : String → Bytes
codes String.[] = []
codes (String.◌∷◌ c s) = code c ∷ codes s
