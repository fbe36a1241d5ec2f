-- ===== src/Prelude/Values.antt =====
-- What the program takes from outside its own code: identifiers and instants.
use Prim.Native.Nat.{ℕ, ◌*◌}
use Prim.Native.Char.{code}
use Prim.Native.String.{String}
use mathlib.Core.List.{List, [], ◌∷◌}

-- A `UUID`, by its 128-bit number: `==`, `<` and `str` of a `UUID` go by that number.
abbrev pub Uuid : Type 0
Uuid = ℕ

-- A `datetime` in UTC, in microseconds; a `timedelta` is a number of microseconds.
abbrev pub Instant : Type 0
Instant = ℕ

-- `timedelta(seconds=n)`
abbrev pub seconds : ℕ → ℕ
seconds n = n * 1000000

-- The code points of a literal.
abbrev pub codes : String → List ℕ
codes String.[] = []
codes (String.◌∷◌ c s) = code c ∷ codes s
