-- ===== src/Common/Texts.antt =====
-- Text methods of Python: `startswith`, slices, `strip` and the first
-- part of a `split` at line ends.
use Prim.Native.String.{String, [], ◌∷◌}
use Prim.Native.Char.{code}
use Prim.Native.Nat.{ℕ, zero, suc}
use mathlib.Core.Bool.{Bool, true, false, ◌&&◌, ◌||◌}
use dev_workflow_automation.Common.Tests.{leb, ◌==◌, if◌then◌else◌}

-- `str.isspace` on a character.
abbrev is_space : ℕ → Bool
is_space n =
    leb 9 n && leb n 13
    || leb 28 n && leb n 32
    || n == 133
    || n == 160
    || n == 5760
    || leb 8192 n && leb n 8202
    || n == 8232
    || n == 8233
    || n == 8239
    || n == 8287
    || n == 12288

-- `s.startswith(t)`
unfoldable pub starts_with : String → String → Bool
starts_with [] s = true
starts_with (c ∷ t) [] = false
starts_with (c ∷ t) (d ∷ s) = let rest = starts_with t s in code c == code d && rest

-- `s[len(t):]`
unfoldable pub skip : String → String → String
skip [] s = s
skip (c ∷ t) [] = []
skip (c ∷ t) (d ∷ s) = skip t s

-- `s[:n]`
unfoldable pub take : ℕ → String → String
take zero s = []
take (suc n) [] = []
take (suc n) (c ∷ s) = c ∷ take n s

reverse_onto : String → String → String
reverse_onto [] s = s
reverse_onto (c ∷ t) s = reverse_onto t (c ∷ s)

strip_left : String → String
strip_left [] = []
strip_left (c ∷ s) = let rest = strip_left s in if is_space (code c) then rest else c ∷ s

unfoldable pub strip : String → String
unfolding reverse_onto strip_left
strip s = reverse_onto (strip_left (reverse_onto (strip_left s) [])) []

-- `s.split("\n", 1)[0]`
unfoldable pub first_line : String → String
first_line [] = []
first_line (c ∷ s) = let rest = first_line s in if code c == 10 then [] else c ∷ rest
