-- ===== src/Prelude/Text.antt =====
-- JavaScript's `s.length`: the UTF-16 code units of a text.
use Prim.Native.Nat.{ℕ, ◌+◌}
use Prim.Native.Char.{code}
use Prim.Native.String.{String}
use arivion.Prelude.Tests.{ltb, if◌then◌else◌}

unfoldable pub string_length : String → ℕ
string_length String.[] = 0
string_length (String.◌∷◌ c s) = (if ltb (code c) 65536 then 1 else 2) + string_length s
