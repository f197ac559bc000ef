-- ===== src/PriceGraph/Route/Parsed.antt =====
-- A key that src/core/executable_price_graph.rs makes for a route is read by
-- src/core/route_artifact.rs as the legs of that route.
use Prim.Native.Char.{Char}
use Prim.Native.String.{String, ◌++◌ as ◌&◌}
use text.Mathlib.TextLemmas.{nil-append, cons-append, append_assoc}
use dex_arbitrage.Prelude.{
  ℕ, suc, ◌+◌, ◌-◌, ◌*◌, ◌^◌, ◌<◌, ◌≡◌, ◌≢◌, refl, sym, ap, ◌∙◌, subst, Option, some, ok, true,
  false, not, ◌||◌, ◌&&◌, if_some, unless_some, match_some, ltb, leb, ◌==◌, List, [], ◌∷◌, map,
  length, All, string_eq, arith,
}
use dex_arbitrage.Prelude.Text.{split, split_once}
use dex_arbitrage.Prelude.Split.{Lacks, split-Lacks, split-append, split_once-append, Lacks-append}
use dex_arbitrage.Float.{F64Rates}
use dex_arbitrage.PriceEdge.{Venue, uniswap_v3, quick_swap, sushi_swap, curve, ExecutablePriceEdge}
use dex_arbitrage.RouteArtifact.{RouteLeg, StructuralRoute}
use dex_arbitrage.RouteArtifact.Load.{
  parse_fee, parse_leg, parse_chunks, parse_legs, expected_tokens,
}
use dex_arbitrage.PriceGraph.Route.{
  BuiltLeg, venue_name, protocol_version, fee_string, join_parts, leg_of, legs_from, multiply_rates,
  finish_route, route_of_edges, is_closed_sequence, build_route,
}
use dex_arbitrage.PriceGraph.Route.Built.{read}
use dex_arbitrage.PriceGraph.Route.Digits.{text_differs, parse_fee-fee_string, fee_string-Lacks}

abbrev bar : Char
bar = "|"

bar-append : (s : String) → "|" & s ≡ String.◌∷◌ bar s
bar-append s = cons-append bar "" s ∙ ap (λ t. String.◌∷◌ bar t) (nil-append s)

-- One token before a bar.
split-bar :
    (part rest : String)
    → Lacks b'|' part
    → split b'|' (part & ("|" & rest)) ≡ part ∷ split b'|' rest
split-bar part rest h = rw bar-append (split-append b'|' part bar rest h refl)

split-bar_empty : (rest : String) → split b'|' ("|" & rest) ≡ "" ∷ split b'|' rest
split-bar_empty rest = ap (split b'|') (sym (nil-append ("|" & rest))) ∙ split-bar "" rest tt

bars-append : (s : String) → "||" & s ≡ "|" & ("|" & s)
bars-append s = append_assoc "|" "|" s

module _ (token_in token_out name version pool fee : String) where
  abbrev pair : String
  pair = token_in & (">" & token_out)

  -- As `leg_of` writes it.
  abbrev part : String
  part =
      token_in
      & (">" & (token_out & ("|" & (name & ("|" & (version & ("|" & (pool & ("|" & fee)))))))))

  abbrev AreTokens : Type 0
  AreTokens =
      Lacks b'|' pair × Lacks b'|' name × Lacks b'|' version × Lacks b'|' pool × Lacks b'|' fee

  part-pair : part ≡ pair & ("|" & (name & ("|" & (version & ("|" & (pool & ("|" & fee)))))))
  part-pair = rw (append_assoc, append_assoc) refl

  split-part : AreTokens → split b'|' part ≡ pair ∷ name ∷ version ∷ pool ∷ fee ∷ []
  split-part (a, b, c, d, e) =
      rw
        (
          part-pair,
          split-bar pair _ a,
          split-bar name _ b,
          split-bar version _ c,
          split-bar pool _ d,
          split-Lacks b'|' fee e,
        )
        refl

  part_next :
      (rest : String)
      → part & ("||" & rest)
        ≡ pair
          & ("|"
              & (name & ("|" & (version & ("|" & (pool & ("|" & (fee & ("|" & ("|" & rest))))))))))
  part_next rest = rw (part-pair, bars-append) (simp append_assoc)

  split-part_next :
      (rest : String)
      → AreTokens
      → split b'|' (part & ("||" & rest))
        ≡ pair ∷ name ∷ version ∷ pool ∷ fee ∷ "" ∷ split b'|' rest
  split-part_next rest (a, b, c, d, e) =
      rw
        (
          part_next,
          split-bar pair _ a,
          split-bar name _ b,
          split-bar version _ c,
          split-bar pool _ d,
          split-bar fee _ e,
          split-bar_empty,
        )
        refl

-- What a symbol and the printing of an address must be, that a key can be read back.
abbrev pub IsReadable : ExecutablePriceEdge → Type 0
IsReadable edge =
    ((sym_in : String)
      → edge.token_in_symbol ≡ some sym_in
      → (sym_in ≢ "") × Lacks b'|' sym_in × Lacks b'>' sym_in)
    × ((sym_out : String)
        → edge.token_out_symbol ≡ some sym_out
        → (sym_out ≢ "") × Lacks b'|' sym_out)
    × ((fee : ℕ) → edge.fee ≡ some fee → fee < 2 ^ 32)

abbrev pub ArePrinted : (ℕ → String) → Type 0
ArePrinted address_debug =
    (address : ℕ) → (address_debug address ≢ "") × Lacks b'|' (address_debug address)

venue_name-Lacks : (venue : Venue) → Lacks b'|' (venue_name venue)
unfolding venue_name
venue_name-Lacks uniswap_v3 = omega arith
venue_name-Lacks quick_swap = omega arith
venue_name-Lacks sushi_swap = omega arith
venue_name-Lacks curve = omega arith

protocol_version-Lacks : (venue : Venue) → Lacks b'|' (protocol_version venue)
unfolding protocol_version
protocol_version-Lacks uniswap_v3 = omega arith
protocol_version-Lacks quick_swap = omega arith
protocol_version-Lacks sushi_swap = omega arith
protocol_version-Lacks curve = omega arith

parse_leg-pair :
    (token_in token_out name version pool text : String) (fee : Option ℕ)
    → token_in ≢ ""
    → Lacks b'>' token_in
    → token_out ≢ ""
    → pool ≢ ""
    → parse_fee text ≡ ok fee
    → parse_leg (token_in & (">" & token_out)) name version pool text
      ≡ ok (record {
        token_in = token_in;
        token_out = token_out;
        venue = name;
        protocol_version = version;
        pool_address = some pool;
        fee_tier = fee;
      })
unfolding parse_leg
parse_leg-pair token_in token_out name version pool text fee a lacks b c read_fee =
    let arrow : Char = ">" in
    let opened : ">" & token_out ≡ String.◌∷◌ arrow token_out =
      cons-append arrow "" token_out ∙ ap (λ t. String.◌∷◌ arrow t) (nil-append token_out) in
    let once =
      ap (λ t. split_once b'>' (token_in & t)) opened
      ∙ split_once-append b'>' token_in arrow token_out lacks refl in
    rw
      (
        once,
        text_differs token_in "" a,
        text_differs token_out "" b,
        read_fee,
        text_differs pool "" c,
      )
      refl

parse_chunks-last :
    (pair name version pool fee : String) (leg : RouteLeg)
    → parse_leg pair name version pool fee ≡ ok leg
    → parse_chunks 1 (pair ∷ name ∷ version ∷ pool ∷ fee ∷ []) ≡ ok (leg ∷ [])
unfolding parse_chunks
parse_chunks-last pair name version pool fee leg h = rw h refl

parse_chunks-next :
    (n : ℕ) (pair name version pool fee : String) (tokens : List String) (leg : RouteLeg)
    (legs : List RouteLeg)
    → parse_leg pair name version pool fee ≡ ok leg
    → parse_chunks (suc n) tokens ≡ ok legs
    → parse_chunks (suc (suc n)) (pair ∷ name ∷ version ∷ pool ∷ fee ∷ "" ∷ tokens)
      ≡ ok (leg ∷ legs)
unfolding parse_chunks
parse_chunks-next n pair name version pool fee tokens leg legs h later =
    rw (h, later, parse_chunks) refl

join_parts-cons :
    (key_part : String) (built : List BuiltLeg)
    → built ≢ []
    → join_parts (key_part ∷ map BuiltLeg.key_part built)
      ≡ key_part & ("||" & join_parts (map BuiltLeg.key_part built))
unfolding join_parts
join_parts-cons key_part [] h = absurd (h refl)
join_parts-cons key_part (leg ∷ built) h = refl

module _ (address_debug : ℕ → String) (printed : ArePrinted address_debug) where
  leg_of-AreTokens :
      (edge : ExecutablePriceEdge) (sym_in sym_out : String)
      → IsReadable edge
      → edge.token_in_symbol ≡ some sym_in
      → edge.token_out_symbol ≡ some sym_out
      → AreTokens sym_in sym_out
          (venue_name edge.venue)
          (protocol_version edge.venue)
          (address_debug edge.pool)
          (fee_string edge.fee)
  leg_of-AreTokens edge sym_in sym_out (in_ok, out_ok, fee_ok) has_in has_out =
      let in_facts = in_ok sym_in has_in in
      let out_facts = out_ok sym_out has_out in
      (
        Lacks-append b'|' sym_in (">" & sym_out) in_facts.1
            (Lacks-append b'|' ">" sym_out (omega arith) out_facts.1),
        venue_name-Lacks edge.venue,
        protocol_version-Lacks edge.venue,
        (printed edge.pool).1,
        fee_string-Lacks b'|' edge.fee fee_ok (omega arith),
      )

  parse_leg-leg_of :
      (i : ℕ) (edge : ExecutablePriceEdge) (sym_in sym_out : String)
      → IsReadable edge
      → edge.token_in_symbol ≡ some sym_in
      → edge.token_out_symbol ≡ some sym_out
      → parse_leg
          (sym_in & (">" & sym_out))
          (venue_name edge.venue)
          (protocol_version edge.venue)
          (address_debug edge.pool)
          (fee_string edge.fee)
        ≡ ok (leg_of address_debug i edge sym_in sym_out).leg
  unfolding leg_of
  parse_leg-leg_of i edge sym_in sym_out (in_ok, out_ok, fee_ok) has_in has_out =
      let in_facts = in_ok sym_in has_in in
      let out_facts = out_ok sym_out has_out in
      parse_leg-pair sym_in sym_out (venue_name edge.venue) (protocol_version edge.venue)
        (address_debug edge.pool) (fee_string edge.fee) edge.fee in_facts.0 in_facts.2 out_facts.0
        (printed edge.pool).0 (parse_fee-fee_string edge.fee fee_ok)

  -- A key of so many legs is cut into six tokens for each, less one, and read as these legs.
  abbrev Reads : ℕ → List BuiltLeg → Type 0
  Reads n built =
      let tokens = split b'|' (join_parts (map BuiltLeg.key_part built)) in
      (length tokens + 1 ≡ n * 6) × (parse_chunks n tokens ≡ ok (map BuiltLeg.leg built))

  Reads-last :
      (i : ℕ) (edge : ExecutablePriceEdge) (sym_in sym_out : String)
      → IsReadable edge
      → edge.token_in_symbol ≡ some sym_in
      → edge.token_out_symbol ≡ some sym_out
      → Reads 1 (leg_of address_debug i edge sym_in sym_out ∷ [])
  unfolding leg_of join_parts
  Reads-last i edge sym_in sym_out readable has_in has_out =
      let tokens =
        split-part sym_in sym_out (venue_name edge.venue) (protocol_version edge.venue)
          (address_debug edge.pool) (fee_string edge.fee)
          (leg_of-AreTokens edge sym_in sym_out readable has_in has_out) in
      rw tokens (
        refl,
        parse_chunks-last _ _ _ _ _ _
            (parse_leg-leg_of i edge sym_in sym_out readable has_in has_out),
      )

  Reads-next :
      (n i : ℕ) (edge : ExecutablePriceEdge) (sym_in sym_out : String) (built : List BuiltLeg)
      → IsReadable edge
      → edge.token_in_symbol ≡ some sym_in
      → edge.token_out_symbol ≡ some sym_out
      → built ≢ []
      → Reads (suc n) built
      → Reads (suc (suc n)) (leg_of address_debug i edge sym_in sym_out ∷ built)
  unfolding leg_of
  Reads-next n i edge sym_in sym_out built readable has_in has_out more (count, legs) =
      let leg = leg_of address_debug i edge sym_in sym_out in
      let rest = join_parts (map BuiltLeg.key_part built) in
      let tokens =
        split-part_next sym_in sym_out (venue_name edge.venue) (protocol_version edge.venue)
          (address_debug edge.pool) (fee_string edge.fee) rest
          (leg_of-AreTokens edge sym_in sym_out readable has_in has_out) in
      let cut = ap (split b'|') (join_parts-cons leg.key_part built more) ∙ tokens in
      rw cut (
        omega (arith, count),
        parse_chunks-next n _ _ _ _ _ (split b'|' rest) _ _
            (parse_leg-leg_of i edge sym_in sym_out readable has_in has_out) legs,
      )

  legs_from-Reads :
      (i : ℕ) (edge : ExecutablePriceEdge) (edges : List ExecutablePriceEdge)
      {built : List BuiltLeg}
      → All IsReadable (edge ∷ edges)
      → legs_from address_debug i (edge ∷ edges) ≡ some built
      → (built ≢ []) × Reads (length (edge ∷ edges)) built
  unfolding legs_from
  legs_from-Reads i edge [] {built} (readable, _) q =
      let (sym_in, has_in, q1) = match_some edge.token_in_symbol _ q in
      let (sym_out, has_out, q2) = match_some edge.token_out_symbol _ q1 in
      let same : leg_of address_debug i edge sym_in sym_out ∷ [] ≡ built = cc in
      subst (λ b. (b ≢ []) × Reads 1 b) same
        (λ e. cc, Reads-last i edge sym_in sym_out readable has_in has_out)
  legs_from-Reads i edge (next ∷ edges) {built} (readable, others) q =
      let (sym_in, has_in, q1) = match_some edge.token_in_symbol _ q in
      let (sym_out, has_out, q2) = match_some edge.token_out_symbol _ q1 in
      let (later, found, q3) = match_some (legs_from address_debug (i + 1) (next ∷ edges)) _ q2 in
      let (more, ih) = legs_from-Reads (i + 1) next edges others found in
      let same : leg_of address_debug i edge sym_in sym_out ∷ later ≡ built = cc in
      subst (λ b. (b ≢ []) × Reads (length (edge ∷ next ∷ edges)) b) same
        (
          λ e. cc,
          Reads-next (length edges) i edge sym_in sym_out later readable has_in has_out more ih,
        )

  parse_legs-key :
      (n : ℕ) (built : List BuiltLeg)
      → 0 < n
      → n * 6 < 2 ^ 64
      → Reads n built
      → parse_legs (join_parts (map BuiltLeg.key_part built)) n ≡ ok (map BuiltLeg.leg built)
  unfolding parse_legs expected_tokens
  parse_legs-key n built positive bound (count, legs) =
      let tokens = split b'|' (join_parts (map BuiltLeg.key_part built)) in
      let fits : (ltb (n * 6) (2 ^ 64) && leb 1 (n * 6)) ≡ true = ground arith in
      let counted : (n == 0 || not (length tokens == n * 6 - 1)) ≡ false = ground arith in
      rw (fits, counted, legs) refl

  module _ (f : F64Rates) where
    open f use {Carrier}

    finish_route-texts :
        (first : ExecutablePriceEdge) (edges : List ExecutablePriceEdge) (profile : String)
        (route_input : ℕ) (built : List BuiltLeg) (score : Carrier)
        {route : StructuralRoute Carrier}
        → finish_route address_debug f first edges profile route_input built score ≡ some route
        → (route.structural_cycle_key ≡ join_parts (map BuiltLeg.key_part built))
          × (route.legs ≡ map BuiltLeg.leg built)
          × (route.hop_count ≡ length edges)
    unfolding finish_route
    finish_route-texts first edges profile route_input built score q =
        let (_, same) = if_some _ _ q in
        (
          read StructuralRoute.structural_cycle_key same,
          read StructuralRoute.legs same,
          read StructuralRoute.hop_count same,
        )

    -- The key of a route that is built is read back as the legs of that route, if six times the
    -- number of edges is below 2^64, every symbol is a non-empty text without bars, a token that is
    -- given also one without `>`, every fee a u32, and every address is printed as a non-empty text
    -- without bars.
    pub parse_legs-build_route :
        (edges : List ExecutablePriceEdge) (profile : String) (route_input : ℕ)
        {route : StructuralRoute Carrier}
        → All IsReadable edges
        → length edges * 6 < 2 ^ 64
        → build_route address_debug f edges profile route_input ≡ some route
        → parse_legs route.structural_cycle_key route.hop_count ≡ ok route.legs
    unfolding build_route route_of_edges
    parse_legs-build_route [] profile route_input h bound q = cc
    parse_legs-build_route (first ∷ rest) profile route_input {route} readable bound q =
        let edges = first ∷ rest in
        let (closed, q1) = if_some (is_closed_sequence address_debug f first rest) _ q in
        let (built, legs, q2) = match_some (legs_from address_debug 0 edges) _ q1 in
        let (input, q3) = unless_some (route_input == 0) _ q2 in
        let (score, rates, q4) = match_some (multiply_rates address_debug f f.one edges) _ q3 in
        let (fine, q5) =
          unless_some (not (f.is_finite score) || not (f.is_positive score))
            (finish_route address_debug f first edges profile route_input built score) q4 in
        let (key, texts, hops) =
          finish_route-texts first edges profile route_input built score q5 in
        let (_, reads) = legs_from-Reads 0 first rest readable legs in
        rw (key, texts, hops) (parse_legs-key (length edges) built (omega arith) bound reads)
