-- ===== src/Base/Text.antt =====
-- Texts as the bytes that they are stored as (UTF-8; every literal below is ASCII).
use Prim.Native.Nat.{ℕ}
use Prim.Native.Char.{code}
use Prim.Native.String.{String}
use mathlib.Core.List.{List, [], ◌∷◌}

abbrev pub Text : Type 0
Text = List ℕ

abbrev pub bytes_of : String → Text
bytes_of String.[] = []
bytes_of (String.◌∷◌ c s) = code c ∷ bytes_of s
