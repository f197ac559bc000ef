-- ===== src/Prelude/Text.antt =====
-- `str::eq_ignore_ascii_case`, on the code points, `str::to_ascii_lowercase`, and
-- `str::split` by a character.
use Prim.Native.Char.{Char, code}
use Prim.Native.String.{String}
use Prim.Native.Nat.{ℕ, ◌+◌, ◌-◌}
use text.Mathlib.Text.{char_at?}
use mathlib.Core.Option.{Option, none, some}
use mathlib.Core.List.{List, [], ◌∷◌, map}
use mathlib.Core.Bool.{Bool, true, false, ◌&&◌}
use dex_arbitrage.Prelude.Tests.{leb, ◌==◌, if◌then◌else◌}

abbrev pub codes : String → List ℕ
codes String.[] = []
codes (String.◌∷◌ c s) = code c ∷ codes s

-- `u8::to_ascii_lowercase`
abbrev pub to_ascii_lowercase : ℕ → ℕ
to_ascii_lowercase c = if leb b'A' c && leb c b'Z' then c + 32 else c

abbrev pub same_codes : List ℕ → List ℕ → Bool
same_codes [] [] = true
same_codes [] (d ∷ ds) = false
same_codes (c ∷ cs) [] = false
same_codes (c ∷ cs) (d ∷ ds) = c == d && same_codes cs ds

unfoldable pub eq_ignore_ascii_case : String → String → Bool
eq_ignore_ascii_case a b =
    same_codes (map to_ascii_lowercase (codes a)) (map to_ascii_lowercase (codes b))

abbrev lowercase_char : Char → Char
lowercase_char c =
    if leb b'A' (code c) && leb (code c) b'Z'
    then elim (char_at? "abcdefghijklmnopqrstuvwxyz" (code c - b'A')) [ none ↦ c | some d ↦ d ]
    else c

abbrev pub str_to_ascii_lowercase : String → String
str_to_ascii_lowercase String.[] = String.[]
str_to_ascii_lowercase (String.◌∷◌ c s) = String.◌∷◌ (lowercase_char c) (str_to_ascii_lowercase s)

abbrev cons_first : Char → List String → List String
cons_first c [] = String.◌∷◌ c String.[] ∷ []
cons_first c (part ∷ parts) = String.◌∷◌ c part ∷ parts

-- `split(sep)`: at least one part
unfoldable pub split : ℕ → String → List String
split sep String.[] = String.[] ∷ []
split sep (String.◌∷◌ c s) =
    let rest = split sep s in if code c == sep then String.[] ∷ rest else cons_first c rest

-- `split_once(sep)`: what stands before the first separator and after it
unfoldable pub split_once : ℕ → String → Option (String × String)
split_once sep String.[] = none
split_once sep (String.◌∷◌ c s) =
    let rest = split_once sep s in
    if code c == sep
    then some (String.[], s)
    else elim rest [ none ↦ none | some (before, after) ↦ some (String.◌∷◌ c before, after) ]
