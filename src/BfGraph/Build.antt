-- ===== src/BfGraph/Build.antt =====
-- The graphs that `from_price_map` of src/core/bf_graph.rs builds: every edge joins vertices of the
-- graph.
use Prim.Native.String.{String}
use dex_arbitrage.Prelude.{
  ℕ, ◌+◌, ◌≤◌, ◌<◌, ◌≡◌, sym, subst, ◌∙◌, inl, inr, none, some, not, ◌||◌, List, [], ◌∷◌, ◌++◌,
  ◌==◌, length, length-append, All, All-append, All-map, string_eq, Bool-cases, Option-cases, arith,
}
use dex_arbitrage.Prelude.Map.{Map, lookup, insert, insert-cases}
use dex_arbitrage.Prelude.Text.{split}
use dex_arbitrage.Float.{F64Graph}
use dex_arbitrage.BfGraph.{
  PriceEdge, PriceGraph, Building, get_or_insert_idx, add_edge, add_parts, add_pair, add_pairs,
  add_dexes, from_price_map,
}

abbrev pub EdgeWithin : {Rate : Type 0} → ℕ → PriceEdge Rate → Type 0
EdgeWithin n edge = (edge.from < n) × (edge.to < n)

abbrev pub IsInRange : {Rate : Type 0} → PriceGraph Rate → Type 0
IsInRange graph = All (EdgeWithin (length graph.tokens)) graph.edges

module _ {Rate : Type 0} where
  -- What is known of the tokens and the edges at any time.
  abbrev IsSound : Building Rate → Type 0
  IsSound b =
      ((token : String) (idx : ℕ) → lookup token b.token_to_idx ≡ some idx → idx < length b.tokens)
      × All (EdgeWithin (length b.tokens)) b.edges

  EdgeWithin-le :
      (m n : ℕ) (edges : List (PriceEdge Rate))
      → m ≤ n
      → All (EdgeWithin m) edges
      → All (EdgeWithin n) edges
  EdgeWithin-le m n edges le h =
      All-map (EdgeWithin m) (EdgeWithin n) edges (λ e (a, b). (omega arith, omega arith)) h

  get_or_insert_idx-known :
      (b : Building Rate) (token : String) (idx : ℕ)
      → lookup token b.token_to_idx ≡ some idx
      → get_or_insert_idx b token ≡ (idx, b)
  unfolding get_or_insert_idx
  get_or_insert_idx-known b token idx known = ground arith

  with_token : Building Rate → String → Building Rate
  with_token b token = record b {
    tokens = b.tokens ++ token ∷ [];
    token_to_idx = insert token (length b.tokens) b.token_to_idx;
  }

  get_or_insert_idx-new :
      (b : Building Rate) (token : String)
      → lookup token b.token_to_idx ≡ none
      → get_or_insert_idx b token ≡ (length b.tokens, with_token b token)
  unfolding get_or_insert_idx with_token
  get_or_insert_idx-new b token new = ground arith

  -- The index is a vertex, the vertices only become more, and the rest stays sound.
  abbrev Kept : Building Rate → ℕ × Building Rate → Type 0
  Kept b found =
      (found.0 < length found.1.tokens)
      × (length b.tokens ≤ length found.1.tokens)
      × IsSound (found.1)

  with_token-length :
      (b : Building Rate) (token : String)
      → length (with_token b token).tokens ≡ length b.tokens + 1
  unfolding with_token
  with_token-length b token = length-append b.tokens (token ∷ [])

  with_token-IsSound :
      (b : Building Rate) (token : String) → IsSound b → IsSound (with_token b token)
  unfolding with_token
  with_token-IsSound b token (idxs, edges) =
      let more = with_token-length b token in
      (
        λ t idx e. elim (insert-cases token t (length b.tokens) b.token_to_idx) [
          | inl (same, new) ↦ let at : length b.tokens ≡ idx = cc in omega (arith, at, more)
          | inr (other, old) ↦ let was = idxs t idx (sym old ∙ e) in omega (arith, was, more)
        ],
        EdgeWithin-le (length b.tokens) (length (b.tokens ++ token ∷ [])) b.edges (omega arith)
            edges,
      )

  get_or_insert_idx-IsSound :
      (b : Building Rate) (token : String) → IsSound b → Kept b (get_or_insert_idx b token)
  get_or_insert_idx-IsSound b token (idxs, edges) =
      elim (Option-cases (lookup token b.token_to_idx)) [
        | inl new ↦ subst (Kept b) (sym (get_or_insert_idx-new b token new)) (
          omega (arith, with_token-length b token),
          omega (arith, with_token-length b token),
          with_token-IsSound b token (idxs, edges),
        )
        | inr (idx, known) ↦
            subst (Kept b) (sym (get_or_insert_idx-known b token idx known))
              (idxs token idx known, omega arith, (idxs, edges))
      ]

  add_edge-IsSound :
      (dex_name token_a token_b : String) (rate : Rate) (b : Building Rate)
      → IsSound b
      → IsSound (add_edge dex_name token_a token_b rate b)
  unfolding add_edge
  add_edge-IsSound dex_name token_a token_b rate b sound =
      let from = get_or_insert_idx b token_a in
      let to = get_or_insert_idx from.1 token_b in
      let (a, _, sound_a) = get_or_insert_idx-IsSound b token_a sound in
      let (c, le, (idxs, edges)) = get_or_insert_idx-IsSound from.1 token_b sound_a in
      elim (Bool-cases (from.0 == to.0)) [
        | inl same ↦ rw same (idxs, edges)
        | inr other ↦ rw other (idxs, All-append _ (to.1).edges _ edges ((omega arith, c), tt))
      ]

  add_parts-IsSound :
      (dex_name : String) (parts : List String) (rate : Rate) (b : Building Rate)
      → IsSound b
      → IsSound (add_parts dex_name parts rate b)
  unfolding add_parts
  add_parts-IsSound dex_name [] rate b sound = sound
  add_parts-IsSound dex_name (_ ∷ []) rate b sound = sound
  add_parts-IsSound dex_name (token_a ∷ token_b ∷ []) rate b sound =
      add_edge-IsSound dex_name token_a token_b rate b sound
  add_parts-IsSound dex_name (_ ∷ _ ∷ _ ∷ _) rate b sound = sound

module _ (f : F64Graph) where
  open f use {Carrier, le, is_finite}

  add_pair-IsSound :
      (dex_name : String) (p : String × Carrier) (b : Building Carrier)
      → IsSound b
      → IsSound (add_pair f dex_name p b)
  unfolding add_pair
  add_pair-IsSound dex_name (pair, rate) b sound =
      elim (Bool-cases (not (is_finite rate) || le rate f.zero)) [
        | inl bad ↦ rw bad sound
        | inr good ↦ rw good (add_parts-IsSound dex_name (split b'-' pair) rate b sound)
      ]

  add_pairs-IsSound :
      (dex_name : String) (dex_prices : Map String Carrier) (b : Building Carrier)
      → IsSound b
      → IsSound (add_pairs f dex_name dex_prices b)
  unfolding add_pairs
  add_pairs-IsSound dex_name [] b sound = sound
  add_pairs-IsSound dex_name (p ∷ dex_prices) b sound =
      add_pairs-IsSound dex_name dex_prices (add_pair f dex_name p b)
        (add_pair-IsSound dex_name p b sound)

  add_dexes-IsSound :
      (prices : Map String (Map String Carrier)) (b : Building Carrier)
      → IsSound b
      → IsSound (add_dexes f prices b)
  unfolding add_dexes
  add_dexes-IsSound [] b sound = sound
  add_dexes-IsSound ((dex_name, dex_prices) ∷ prices) b sound =
      add_dexes-IsSound prices (add_pairs f dex_name dex_prices b)
        (add_pairs-IsSound dex_name dex_prices b sound)

  pub from_price_map-IsInRange :
      (prices : Map String (Map String Carrier)) → IsInRange (from_price_map f prices)
  unfolding from_price_map lookup
  from_price_map-IsInRange prices =
      (add_dexes-IsSound prices (record { tokens = []; token_to_idx = []; edges = [] })
        (λ token idx e. absurd cc, tt)).1
