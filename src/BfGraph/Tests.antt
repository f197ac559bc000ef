-- ===== src/BfGraph/Tests.antt =====
-- Concrete searches over the graph of src/core/bf_graph.rs, with rates in hundredths of the
-- logarithmic scale: a product is a sum there.
use dex_arbitrage.Prelude.{
  suc, ◌+◌, ◌≡◌, ◌≢◌, refl, none, some, Bool, true, false, not, [], ◌∷◌, All, ltb, ℤ, pos, negsuc,
  minus,
}
use Prim.Native.String.{String}
use dex_arbitrage.Prelude.Map.{Map, lookup, insert}
use dex_arbitrage.Prelude.Text.{split}
use dex_arbitrage.Prelude.Sorting.{sort}
use dex_arbitrage.Float.{F64Graph}
use dex_arbitrage.BfGraph.{PriceGraph, BfCycle, get_or_insert_idx, from_price_map}
use dex_arbitrage.BfGraph.Search.{find_arbitrage_cycles}
use dex_arbitrage.BfGraph.Search.Termination.{find_arbitrage_cycles-ends}
use dex_arbitrage.BfGraph.Search.Soundness.{IsArbitrage, find_arbitrage_cycles_sound}

abbrev add : ℤ → ℤ → ℤ
add (pos m) (pos n) = pos (m + n)
add (pos m) (negsuc n) = minus m (suc n)
add (negsuc m) (pos n) = minus n (suc m)
add (negsuc m) (negsuc n) = negsuc (suc (m + n))

abbrev negated : ℤ → ℤ
negated (pos n) = minus 0 n
negated (negsuc n) = pos (suc n)

abbrev less : ℤ → ℤ → Bool
less (pos m) (pos n) = ltb m n
less (pos m) (negsuc n) = false
less (negsuc m) (pos n) = true
less (negsuc m) (negsuc n) = ltb n m

-- 1000 stands for 1.0, and each unit above it for a thousandth: to the first order a product of
-- rates adds what they are above 1.0.
abbrev scaled : F64Graph
scaled = record {
  Carrier = ℤ;
  zero = pos 0;
  one = pos 1000;
  hundred = pos 100;
  tolerance = pos 0;
  add = add;
  sub = λ a b. add a (negated b);
  mul = λ a b. add (add a b) (negsuc 999);
  div = λ a b. add (add a (negated b)) (pos 1000);
  neg = negated;
  ln = λ a. add a (negsuc 999);
  lt = less;
  le = λ a b. not (less b a);
  is_finite = λ _. true;
}

-- A triangle whose rates multiply to more than one, an edge without a rate and a malformed pair.
abbrev prices : Map String (Map String ℤ)
prices =
    ("quickswap", ("A-B", pos 1010) ∷ ("B-C", pos 1005) ∷ ("X-Y", pos 0) ∷ ("A-B-C", pos 7) ∷ [])
    ∷ ("sushiswap", ("C-A", pos 1001) ∷ [])
    ∷ []

abbrev graph : PriceGraph ℤ
graph = from_price_map scaled prices

abbrev triangle : BfCycle ℤ
triangle = record {
  path = 0 ∷ 1 ∷ 2 ∷ 0 ∷ [];
  token_path = "A" ∷ "B" ∷ "C" ∷ "A" ∷ [];
  edges =
      record {
        from = 0;
        to = 1;
        dex_name = "quickswap";
        rate = pos 1010;
        token_in = "A";
        token_out = "B";
      }
      ∷ record {
        from = 1;
        to = 2;
        dex_name = "quickswap";
        rate = pos 1005;
        token_in = "B";
        token_out = "C";
      }
      ∷ record {
        from = 2;
        to = 0;
        dex_name = "sushiswap";
        rate = pos 1001;
        token_in = "C";
        token_out = "A";
      }
      ∷ [];
  product = pos 1016;
  spread_pct = negsuc 883;
  total_weight = negsuc 15;
}

triangle_found : find_arbitrage_cycles scaled graph (negsuc 9999) (pos 9999) ≡ some (triangle ∷ [])
unfolding from_price_map find_arbitrage_cycles get_or_insert_idx lookup insert split sort
triangle_found = refl

find_arbitrage_cycles-ends_example :
    find_arbitrage_cycles scaled graph (negsuc 9999) (pos 9999) ≢ none
find_arbitrage_cycles-ends_example =
    find_arbitrage_cycles-ends scaled prices (negsuc 9999) (pos 9999)

find_arbitrage_cycles_sound_example :
    All (IsArbitrage scaled graph (negsuc 9999) (pos 9999)) (triangle ∷ [])
find_arbitrage_cycles_sound_example =
    find_arbitrage_cycles_sound scaled graph (negsuc 9999) (pos 9999) (triangle ∷ []) triangle_found
