-- ===== src/Prelude/Split.antt =====
-- The parts of a text, and a number in digits: what `split`, `split_once` and `parse::<u32>` read
-- of a text that was joined of parts.
use Prim.Native.Char.{Char, code}
use Prim.Native.Nat.{ℕ}
use Prim.Native.String.{String, ◌++◌ as ◌&◌}
use text.Mathlib.TextLemmas.{nil-append, cons-append}
use mathlib.Core.Option.{some}
use mathlib.Core.List.{[], ◌∷◌}
use mathlib.Core.Path.{◌≡◌, refl}
use mathlib.Core.Logic.{◌≢◌}
use native.Mathlib.Omega.{arith}
use dex_arbitrage.Prelude.Text.{split, split_once}

-- No character has the code.
abbrev pub Lacks : ℕ → String → Type 0
Lacks sep String.[] = Unit
Lacks sep (String.◌∷◌ c s) = (code c ≢ sep) × Lacks sep s

pub split-Lacks : (sep : ℕ) (part : String) → Lacks sep part → split sep part ≡ part ∷ []
unfolding split
split-Lacks sep String.[] h = refl
split-Lacks sep (String.◌∷◌ c s) (other, h) = let ih = split-Lacks sep s h in rw ih (ground arith)

pub split-append :
    (sep : ℕ) (part : String) (c : Char) (rest : String)
    → Lacks sep part
    → code c ≡ sep
    → split sep (part & String.◌∷◌ c rest) ≡ part ∷ split sep rest
unfolding split
split-append sep String.[] c rest h same = rw nil-append (ground arith)
split-append sep (String.◌∷◌ d s) c rest (other, h) same =
    let ih = split-append sep s c rest h same in rw (cons-append, ih) (ground arith)

pub split_once-append :
    (sep : ℕ) (part : String) (c : Char) (rest : String)
    → Lacks sep part
    → code c ≡ sep
    → split_once sep (part & String.◌∷◌ c rest) ≡ some (part, rest)
unfolding split_once
split_once-append sep String.[] c rest h same = rw nil-append (ground arith)
split_once-append sep (String.◌∷◌ d s) c rest (other, h) same =
    let ih = split_once-append sep s c rest h same in rw (cons-append, ih) (ground arith)

pub Lacks-append : (sep : ℕ) (s t : String) → Lacks sep s → Lacks sep t → Lacks sep (s & t)
Lacks-append sep String.[] t h k = rw nil-append k
Lacks-append sep (String.◌∷◌ c s) t (other, h) k = rw cons-append (other, Lacks-append sep s t h k)
