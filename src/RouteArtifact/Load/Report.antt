-- ===== src/RouteArtifact/Load/Report.antt =====
-- The report of `load_structural_routes` in src/core/route_artifact.rs.
use Prim.Native.String.{String}
use dex_arbitrage.Prelude.{
  suc, ◌+◌, ◌≡◌, ◌≢◌, refl, sym, ap, ◌∙◌, subst, inl, inr, err, Result-cases, Avoids-ne, false,
  Bool-cases, List, [], ◌∷◌, ◌++◌, map, length, length-append, All, All-append, Distinct,
  Distinct-concat, contains, contains-concat, string_eq, arith,
}
use dex_arbitrage.RouteArtifact.{RouteLeg, StructuralRoute}
use dex_arbitrage.RouteArtifact.Load.{
  duplicate, panic, RouteFailure, RouteLoadReport, RawCycle, outcome_of, route_id_of, route_of,
  load_cycle, load_cycles, load_structural_routes,
}
use dex_arbitrage.RouteArtifact.Load.Checked.{
  IsLoaded, route_of-IsLoaded, is_panic, outcome_of-Avoids,
}

module _ {Score : Type 0} where
  abbrev pub route_ids : List (StructuralRoute Score) → List String
  route_ids = map StructuralRoute.route_id

  route_ids-append :
      (routes : List (StructuralRoute Score)) (route : StructuralRoute Score)
      → route_ids (routes ++ route ∷ []) ≡ route_ids routes ++ route.route_id ∷ []
  route_ids-append [] route = refl
  route_ids-append (r ∷ routes) route = ap (λ ids. r.route_id ∷ ids) (route_ids-append routes route)

  -- What is known of a report at any time: the ids of its routes were seen.
  abbrev IsGood : List String → RouteLoadReport Score → Type 0
  IsGood seen report =
      All IsLoaded report.routes
      × All (λ failure. failure.error ≢ panic) report.failures
      × Distinct (route_ids report.routes)
      × ((id : String) → contains id seen ≡ false → contains id (route_ids report.routes) ≡ false)

  route_of-id :
      (cycle : RawCycle Score) (legs : List RouteLeg)
      → (route_of cycle legs).route_id ≡ route_id_of cycle
  unfolding route_of
  route_of-id cycle legs = refl

  load_cycle-IsGood :
      (cycle : RawCycle Score) (seen : List String) (report : RouteLoadReport Score)
      → contains (route_id_of cycle) seen ≡ false
      → IsGood seen report
      → IsGood (route_id_of cycle ∷ seen) (load_cycle cycle report)
  unfolding load_cycle
  load_cycle-IsGood cycle seen report new (loaded, faults, distinct, known) =
      elim (Result-cases (outcome_of cycle)) [
        | inl (legs, done) ↦
            let route = route_of cycle legs in
            let ids = route_ids report.routes in
            let more = sym (route_ids-append report.routes route) in
            let same = sym (route_of-id cycle legs) in
            rw (done, load_cycle)
              (
                All-append _ report.routes _ loaded (route_of-IsLoaded cycle legs done, tt),
                faults,
                subst (λ l. Distinct l) more
                    (subst (λ id. Distinct (ids ++ id ∷ [])) same
                      (Distinct-concat (route_id_of cycle) ids distinct
                        (known (route_id_of cycle) new))),
                λ id fresh.
                    subst (λ l. contains id l ≡ false) more
                      (subst (λ i. contains id (ids ++ i ∷ []) ≡ false) same
                        (contains-concat id (route_id_of cycle) ids (known id (ground arith))
                          (ground arith))),
              )
        | inr (error, failed) ↦
            let fault : error ≢ panic =
              λ e. Avoids-ne is_panic (outcome_of-Avoids cycle) panic refl (failed ∙ ap err e) in
            rw (failed, load_cycle)
              (
                loaded,
                All-append _ report.failures _ faults (fault, tt),
                distinct,
                λ id fresh. known id (ground arith),
              )
      ]

  load_cycles-IsGood :
      (cycles : List (RawCycle Score)) (seen : List String) (report : RouteLoadReport Score)
      → IsGood seen report
      → (let done = load_cycles cycles seen report in
          All IsLoaded done.routes
          × All (λ failure. failure.error ≢ panic) done.failures
          × Distinct (route_ids done.routes))
  unfolding load_cycles
  load_cycles-IsGood [] seen report (loaded, faults, distinct, known) = (loaded, faults, distinct)
  load_cycles-IsGood (cycle ∷ cycles) seen report good =
      elim (Bool-cases (contains (route_id_of cycle) seen)) [
        | inl again ↦
            rw (again, load_cycles)
              (load_cycles-IsGood cycles seen _
                (good.0, All-append _ report.failures _ good.1 (λ e. cc, tt), good.2, good.3))
        | inr new ↦
            rw (new, load_cycles)
              (load_cycles-IsGood cycles (route_id_of cycle ∷ seen) (load_cycle cycle report)
                (load_cycle-IsGood cycle seen report new good))
      ]

  load_cycle-length :
      (cycle : RawCycle Score) (report : RouteLoadReport Score)
      → length (load_cycle cycle report).routes + length (load_cycle cycle report).failures
        ≡ suc (length report.routes + length report.failures)
  unfolding load_cycle
  load_cycle-length cycle report = elim (Result-cases (outcome_of cycle)) [
    | inl (legs, done) ↦
        rw (done, load_cycle)
          (omega (arith, length-append report.routes (route_of cycle legs ∷ [])))
    | inr (error, failed) ↦
        rw (failed, load_cycle)
          (omega (
            arith,
            length-append report.failures
                (record { route_id = route_id_of cycle; error = error } ∷ []),
          ))
  ]

  load_cycles-length :
      (cycles : List (RawCycle Score)) (seen : List String) (report : RouteLoadReport Score)
      → length (load_cycles cycles seen report).routes
          + length (load_cycles cycles seen report).failures
        ≡ length report.routes + length report.failures + length cycles
  unfolding load_cycles
  load_cycles-length [] seen report = omega arith
  load_cycles-length (cycle ∷ cycles) seen report =
      let failure : RouteFailure = record { route_id = route_id_of cycle; error = duplicate } in
      let repeated : RouteLoadReport Score = record report {
        failures = report.failures ++ failure ∷ [];
      } in
      elim (Bool-cases (contains (route_id_of cycle) seen)) [
        | inl again ↦
            rw (again, load_cycles)
              (omega (
                arith,
                load_cycles-length cycles seen repeated,
                length-append report.failures (failure ∷ []),
              ))
        | inr new ↦
            rw (new, load_cycles)
              (omega (
                arith,
                load_cycles-length cycles (route_id_of cycle ∷ seen) (load_cycle cycle report),
                load_cycle-length cycle report,
              ))
      ]

  -- Every cycle of the file ends as one route or as one failure, and never in a slice out of range.
  -- The routes have different ids, and each was parsed from its own key: one leg for each hop and
  -- at least one, every leg starting with the token before it and the last back at the first.
  pub load_structural_routes_ok :
      (cycles : List (RawCycle Score))
      → (let report = load_structural_routes cycles in
          (length report.routes + length report.failures ≡ length cycles)
          × All IsLoaded report.routes
          × All (λ failure. failure.error ≢ panic) report.failures
          × Distinct (route_ids report.routes))
  unfolding load_structural_routes
  load_structural_routes_ok cycles =
      let start : RouteLoadReport Score = record { routes = []; failures = [] } in
      let (loaded, faults, distinct) =
        load_cycles-IsGood cycles [] start (tt, tt, tt, λ id h. refl) in
      (omega (arith, load_cycles-length cycles [] start), loaded, faults, distinct)
