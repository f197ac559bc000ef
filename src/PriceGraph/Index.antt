-- ===== src/PriceGraph/Index.antt =====
-- The index of a graph (src/core/executable_price_graph.rs) by the first token of an edge.
use mathlib.Core.List.{Memᴰ, append-nil, append_assoc}
use mathlib.Core.List.Memᴰ
use dex_arbitrage.Prelude.{
  ℕ, ◌≡◌, ◌≢◌, refl, sym, ap, ◌∙◌, ◌⊎◌, inl, inr, some, List, [], ◌∷◌, ◌++◌, length, get_elem?,
  get_elem?-append_left, get_elem?-concat_self, get_elem?-concat, All, All-append, All-map, nat_eq,
}
use dex_arbitrage.Prelude.Map.{lookup, insert-cases}
use dex_arbitrage.PriceEdge.{ExecutablePriceEdge}
use dex_arbitrage.PriceGraph.{ExecutableEdgeGraph, new, or_default, push, edges_from}

-- The graph of a list of edges, pushed in their order.
unfoldable pub push_all : ExecutableEdgeGraph → List ExecutablePriceEdge → ExecutableEdgeGraph
push_all graph [] = graph
push_all graph (edge ∷ edges) = push_all (push graph edge) edges

-- The edge at an index leaves a token.
abbrev pub Leaves : List ExecutablePriceEdge → ℕ → ℕ → Type 0
Leaves edges token i =
    (edge : ExecutablePriceEdge) × (get_elem? edges i ≡ some edge) × (edge.token_in ≡ token)

-- The index of a token lists the edges that leave it, and no others.
pub record IsIndexed (graph : ExecutableEdgeGraph) : Type 0 where
  pub listed : (token : ℕ) → All (Leaves graph.edges token) (edges_from graph token)
  pub covers : (token i : ℕ) → Leaves graph.edges token i → Memᴰ i (edges_from graph token)

new-IsIndexed : IsIndexed new
unfolding new edges_from or_default lookup
new-IsIndexed = record { listed = λ token. tt; covers = λ token i h. cc }

edges_from-push :
    (graph : ExecutableEdgeGraph) (edge : ExecutablePriceEdge) (token : ℕ)
    → ((edge.token_in ≡ token)
        × (edges_from (push graph edge) token ≡ edges_from graph token ++ length graph.edges ∷ []))
      ⊎ ((edge.token_in ≢ token) × (edges_from (push graph edge) token ≡ edges_from graph token))
unfolding push edges_from or_default
edges_from-push graph edge token =
    let indices = or_default (lookup edge.token_in graph.by_token_in) ++ length graph.edges ∷ [] in
    elim (insert-cases edge.token_in token indices graph.by_token_in) [
      | inl (q, e) ↦ inl (q, rw e (rw q refl))
      | inr (n, e) ↦ inr (n, ap or_default e)
    ]

-- What leaves a token still leaves it after a push.
Leaves-push :
    (edges : List ExecutablePriceEdge) (edge : ExecutablePriceEdge) (token i : ℕ)
    → Leaves edges token i
    → Leaves (edges ++ edge ∷ []) token i
Leaves-push edges edge token i (e, found, leaves) =
    (e, get_elem?-append_left edges (edge ∷ []) i found, leaves)

push-IsIndexed :
    (graph : ExecutableEdgeGraph) (edge : ExecutablePriceEdge)
    → IsIndexed graph
    → IsIndexed (push graph edge)
unfolding push
push-IsIndexed graph edge h = record {
  listed = λ token. push-listed token (edges_from-push graph edge token);
  covers = λ token i l. push-covers token i l (edges_from-push graph edge token);
}
  where
    Outcome : ℕ → Type 0
    Outcome token =
        ((edge.token_in ≡ token)
          × (edges_from (push graph edge) token
              ≡ edges_from graph token ++ length graph.edges ∷ []))
        ⊎ ((edge.token_in ≢ token) × (edges_from (push graph edge) token ≡ edges_from graph token))

    older : (token : ℕ) → All (Leaves (graph.edges ++ edge ∷ []) token) (edges_from graph token)
    older token =
        All-map (Leaves graph.edges token) (Leaves (graph.edges ++ edge ∷ []) token) _
          (λ i. Leaves-push graph.edges edge token i) (h.listed token)

    push-listed :
        (token : ℕ)
        → Outcome token
        → All (Leaves (graph.edges ++ edge ∷ []) token) (edges_from (push graph edge) token)
    push-listed token (inl (q, e)) = rw e (
        All-append (Leaves (graph.edges ++ edge ∷ []) token) (edges_from graph token) _
          (older token) ((edge, get_elem?-concat_self graph.edges edge, q), tt))
    push-listed token (inr (n, e)) = rw e (older token)

    push-covers :
        (token i : ℕ)
        → Leaves (graph.edges ++ edge ∷ []) token i
        → Outcome token
        → Memᴰ i (edges_from (push graph edge) token)
    push-covers token i (x, found, leaves) (inl (q, e)) =
        elim (get_elem?-concat graph.edges edge x i found) [
          | inl old ↦ rw e (Memᴰ.append_left _ (h.covers token i (x, old, leaves)))
          | inr (last, same) ↦ rw e (Memᴰ.append_right (edges_from graph token) (Memᴰ.head last))
        ]
    push-covers token i (x, found, leaves) (inr (n, e)) =
        elim (get_elem?-concat graph.edges edge x i found) [
          | inl old ↦ rw e (h.covers token i (x, old, leaves))
          | inr (last, same) ↦ absurd (n (ap ExecutablePriceEdge.token_in (sym same) ∙ leaves))
        ]

push_all-from :
    (graph : ExecutableEdgeGraph) (edges : List ExecutablePriceEdge)
    → IsIndexed graph
    → IsIndexed (push_all graph edges)
unfolding push_all
push_all-from graph [] h = h
push_all-from graph (edge ∷ edges) h =
    push_all-from (push graph edge) edges (push-IsIndexed graph edge h)

pub push_all-IsIndexed : (edges : List ExecutablePriceEdge) → IsIndexed (push_all new edges)
push_all-IsIndexed edges = push_all-from new edges new-IsIndexed

push_all-edges-from :
    (graph : ExecutableEdgeGraph) (edges : List ExecutablePriceEdge)
    → (push_all graph edges).edges ≡ graph.edges ++ edges
unfolding push_all push
push_all-edges-from graph [] = sym (append-nil graph.edges)
push_all-edges-from graph (edge ∷ edges) =
    push_all-edges-from (push graph edge) edges ∙ append_assoc graph.edges (edge ∷ []) edges

-- The graph holds the edges pushed, in their order.
pub push_all-edges : (edges : List ExecutablePriceEdge) → (push_all new edges).edges ≡ edges
unfolding new
push_all-edges edges = push_all-edges-from new edges
