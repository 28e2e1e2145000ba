-- ===== src/Prelude/Bytes.antt =====
-- `std::string` where the program looks into it: the list of its bytes.
use Prim.Native.Nat.{ℕ, ◌+◌}
use Prim.Native.Char.{code}
use Prim.Native.String.{String}
use mathlib.Core.Path.{◌≡◌, refl}
use mathlib.Core.Bool.{Bool, ◌&&◌}
use mathlib.Core.Option.{Option, none, some}
use mathlib.Core.List.{List, [], ◌∷◌, map}
use native.Mathlib.Decide.{ℕ_discrete}
use openbrowser.Prelude.Tests.{Eq, ◌==◌, ℕ_eq, leb, if◌then◌else◌}

abbrev pub Bytes : Type 0
Bytes = List ℕ

unfoldable pub bytes_discrete : Discrete Bytes
bytes_discrete [] [] = yes refl
bytes_discrete [] (y ∷ ys) = no λ p. cc
bytes_discrete (x ∷ xs) [] = no λ p. cc
bytes_discrete (x ∷ xs) (y ∷ ys) = cons_dec (ℕ_discrete x y) (bytes_discrete xs ys)
  where
    cons_dec : Dec (x ≡ y) → Dec (xs ≡ ys) → Dec (x ∷ xs ≡ y ∷ ys)
    cons_dec (yes p) (yes q) = yes (λ i. p i ∷ q i)
    cons_dec (yes p) (no n) = no λ r. n (cc)
    cons_dec (no n) _ = no λ r. n (cc)

instance abbrev pub bytes_eq : Eq Bytes
bytes_eq = record { discrete = bytes_discrete }

-- The bytes of an ASCII literal.
abbrev pub bytes : String → Bytes
bytes String.[] = []
bytes (String.◌∷◌ c s) = code c ∷ bytes s

-- `std::tolower` in the C locale.
unfoldable pub to_lower : ℕ → ℕ
to_lower c = if leb b'A' c && leb c b'Z' then c + 32 else c

abbrev pub lower : Bytes → Bytes
lower = map to_lower

-- The rest of a text behind a prefix, if it has the prefix.
unfoldable pub strip : Bytes → Bytes → Option Bytes
strip [] s = some s
strip (p ∷ ps) [] = none
strip (p ∷ ps) (c ∷ s) = if c == p then strip ps s else none

abbrev pub prepend : ℕ → Option (Bytes × Bytes) → Option (Bytes × Bytes)
prepend c none = none
prepend c (some (before, after)) = some (c ∷ before, after)

-- `find`: the text before the first occurrence of the pattern, and the text behind it.
unfoldable pub split_at : Bytes → Bytes → Option (Bytes × Bytes)
unfolding strip
split_at pattern [] = elim (strip pattern []) [ none ↦ none | some after ↦ some ([], after) ]
split_at pattern (c ∷ s) = elim (strip pattern (c ∷ s)) [
  | none ↦ prepend c (split_at pattern s)
  | some after ↦ some ([], after)
]

-- The text up to the first byte of a class, for `find_first_of`.
unfoldable pub take_until : (ℕ → Bool) → Bytes → Bytes
take_until stop [] = []
take_until stop (c ∷ s) = if stop c then [] else c ∷ take_until stop s
