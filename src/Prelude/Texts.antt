-- ===== src/Prelude/Texts.antt =====
-- Texts as lists of UTF-16 code units: the operations of QString that only move units.
use Prim.Native.Char.{code}
use Prim.Native.String.{String}
use Prim.Native.Nat.{ℕ, ◌-◌}
use mathlib.Core.Bool.{Bool, true, false, ◌&&◌}
use mathlib.Core.List.{List, [], ◌∷◌, ◌++◌}
use modbus_viewer.Prelude.Tests.{◌==◌, leb}
use modbus_viewer.Prelude.Lists.{length, take, drop, replicate}

abbrev pub Text : Type 0
Text = List ℕ

-- `QStringLiteral`, for a text of characters of one unit.
abbrev pub codes : String → Text
codes String.[] = []
codes (String.◌∷◌ c s) = code c ∷ codes s

abbrev pub text_eq : Text → Text → Bool
text_eq [] [] = true
text_eq [] (b ∷ bs) = false
text_eq (a ∷ as') [] = false
text_eq (a ∷ as') (b ∷ bs) = a == b && text_eq as' bs

abbrev pub is_empty {ℓ} : {A : Type ℓ} → List A → Bool
is_empty [] = true
is_empty (x ∷ xs) = false

-- `endsWith` and `chop`.
unfoldable pub ends_with : Text → Text → Bool
ends_with text suffix =
    leb (length suffix) (length text) && text_eq (drop (length text - length suffix) text) suffix

unfoldable pub chop : Text → ℕ → Text
chop text n = take (length text - n) text

-- `rightJustified`, which pads on the left.
unfoldable pub right_justified : Text → ℕ → ℕ → Text
right_justified text width fill = replicate (width - length text) fill ++ text
