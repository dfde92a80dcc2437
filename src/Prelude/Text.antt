-- ===== src/Prelude/Text.antt =====
-- `std::string_view::find` and comparisons of byte strings.
use Prim.Native.Nat.{ℕ, ◌+◌}
use mathlib.Core.Bool.{Bool, true, false, ◌&&◌}
use mathlib.Core.List.{[], ◌∷◌}
use mathlib.Core.Option.{Option, none, some}
use log_transfer_analyzer.Prelude.Tests.{◌==◌, ltb, if◌then◌else◌}
use log_transfer_analyzer.Prelude.Lists.{drop}
use log_transfer_analyzer.Prelude.Word.{Bytes}

abbrev pub starts_with : Bytes → Bytes → Bool
starts_with [] text = true
starts_with (p ∷ pattern) [] = false
starts_with (p ∷ pattern) (c ∷ text) = (p == c) && starts_with pattern text

-- The first place of a pattern in a text that begins at position `at`.
abbrev pub find_at : Bytes → Bytes → ℕ → Option ℕ
find_at pattern [] at = if starts_with pattern [] then some at else none
find_at pattern (c ∷ text) at =
    let later = find_at pattern text (at + 1) in
    if starts_with pattern (c ∷ text) then some at else later

-- `text.find(pattern, pos)`, for a position in the text or at its end.
abbrev pub find_text : Bytes → Bytes → ℕ → Option ℕ
find_text text pattern pos = find_at pattern (drop pos text) pos

abbrev pub same_text : Bytes → Bytes → Bool
same_text [] [] = true
same_text [] (d ∷ ds) = false
same_text (c ∷ cs) [] = false
same_text (c ∷ cs) (d ∷ ds) = (c == d) && same_text cs ds

-- `operator<` of strings.
abbrev pub less_text : Bytes → Bytes → Bool
less_text [] [] = false
less_text [] (d ∷ ds) = true
less_text (c ∷ cs) [] = false
less_text (c ∷ cs) (d ∷ ds) = if c == d then less_text cs ds else ltb c d
