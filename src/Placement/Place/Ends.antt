-- ===== src/Placement/Place/Ends.antt =====
-- `Place` comes to an end (operator/controllers/algorithm/placement.go and dsg8.go).
pub mod Steps
use oai_k8s.Common.{String, ℕ, suc, ◌≡◌, refl, ap, ◌≢◌, Option, none, some, List, [], ◌∷◌}
use oai_k8s.Common.{
  Bool, true, false, get_elem?, concat_text, if◌then◌else◌, Memᴰ, Permᴰ, Distinct, inl, inr,
  Bool-cases, Option-cases,
}
use oai_k8s.Common.{
  Result, ok, err, panic, hang, out_of_fuel, wrap_nil, deref, Action, pure, lift, reads,
  with_context, ◌>>=◌, ◌>>◌,
}
use oai_k8s.Common.Runs.{Runs, Runs-if, Runs-wrapped, Runs-deref, Runs-and_then, Runs-bind}
use oai_k8s.Common.Dict.{Dict, lookup}
use oai_k8s.Extern.{Platform, Laws, is_nil}
use oai_k8s.Api.{ChainPosition}
use oai_k8s.Utils.{Node, RequestedResources}
use oai_k8s.Utils.Nodes
use oai_k8s.Placement.State.{Graph, PlacementBfs, Position, Orders}
use oai_k8s.Placement.Paths.{find_paths_to}
use oai_k8s.Placement.Paths.Correct.{find_paths_to_ends}
use oai_k8s.Placement.Paths.Walks.{SimplePath-Distinct}
use oai_k8s.Placement.Dsg8.{Disaggregation8, between, suits, find_du, candidate, candidates}
use oai_k8s.Placement.Network.{validate_network}
use oai_k8s.Placement.Network.Waits.{validate_network-Runs}
use oai_k8s.Placement.Place.{
  first_valid, choose, validate, allocate_node, allocate_resources, allocate_rus_resources,
  fulfill_ru, dsg8_of, find_position, settle, place_ru, proceed, place_rus, begin, place,
}
use oai_k8s.Placement.Build.Edges.{deref-eq-ok}
use oai_k8s.Placement.Place.Found.{paths_Distinct, find_position-Stands}
use oai_k8s.Placement.Place.Picked.{get_elem?-Memᴰ}
use oai_k8s.Placement.Place.Ends.Steps.{
  allocate_rus_resources-Runs, validate-Runs, allocate_resources-Runs,
}

module _ (P : Platform) where
  open P use {Float, Quantity}

  module _ (d : Disaggregation8 Float Quantity) where
    settle-Runs :
        Laws P
        → (ru : ChainPosition) (x : Result (Option Position) × Graph Float Quantity) → Runs x.0
        → ((position : Position) (g : Graph Float Quantity)
            → x ≡ (ok (some position), g)
            → Distinct position.path)
        → Runs (settle P d ru x).0
    unfolding settle fulfill_ru
    settle-Runs L ru (ok none, g) h k = tt
    settle-Runs L ru (ok (some position), g) h k =
        Runs-wrapped "error updating resources"
          (allocate_resources P d (fulfill_ru ru position) g).0
          (allocate_resources-Runs P d (fulfill_ru ru position) g L (k position g refl))
    settle-Runs L ru (err e, g) h k = h
    settle-Runs L ru (panic, g) h k = h
    settle-Runs L ru (hang, g) h k = h
    settle-Runs L ru (out_of_fuel, g) h k = h

  proceed-Runs :
      (next : Graph Float Quantity → Result Bool × Graph Float Quantity × List ChainPosition)
      (rest : List ChainPosition) (x : Result (Unit {0}) × Graph Float Quantity × ChainPosition)
      → ((g : Graph Float Quantity) → Runs (next g).0)
      → Runs x.0
      → Runs (proceed P next rest x).0
  unfolding proceed
  proceed-Runs next rest (ok u, g, ru) k h = k g
  proceed-Runs next rest (err e, g, ru) k h = h
  proceed-Runs next rest (panic, g, ru) k h = h
  proceed-Runs next rest (hang, g, ru) k h = h
  proceed-Runs next rest (out_of_fuel, g, ru) k h = h

  begin-Runs :
      (next : Graph Float Quantity → Result Bool × Graph Float Quantity × List ChainPosition)
      (rus : List ChainPosition) (x : Result (Unit {0}) × Graph Float Quantity)
      → ((g : Graph Float Quantity) → Runs (next g).0)
      → Runs x.0
      → Runs (begin P next rus x).0
  unfolding begin
  begin-Runs next rus (ok u, g) k h = k g
  begin-Runs next rus (err e, g) k h = h
  begin-Runs next rus (panic, g) k h = h
  begin-Runs next rus (hang, g) k h = h
  begin-Runs next rus (out_of_fuel, g) k h = h

  ends-Runs : {A : Type 0} (r : Result A) → r ≢ out_of_fuel → r ≢ hang → Runs r
  ends-Runs (ok a) e f = tt
  ends-Runs (err a) e f = tt
  ends-Runs panic e f = tt
  ends-Runs hang e f = absurd (f refl)
  ends-Runs out_of_fuel e f = absurd (e refl)

  module _ (L : Laws P) (p : PlacementBfs Float Quantity) (orders : Orders)
      (links_ranged : (i t : ℕ) (ks : List String) → Permᴰ (orders.links i t ks) ks)
      (positions_ranged : (i : ℕ) (ps : List (ℕ × Position)) → Permᴰ (orders.positions i ps) ps)
      (not_cached : p.cache_paths ≡ []) where
    place_ru-Runs :
        (i : ℕ) (ru : ChainPosition) (g : Graph Float Quantity)
        → Runs (place_ru P p orders i ru g).0
    unfolding place_ru find_position
    place_ru-Runs i ru g =
        let paths_of = λ (g : Graph Float Quantity).
          find_paths_to P (record p { graph = g }) (orders.links i) ru.ru_node in
        let choose_position = validate P (dsg8_of P p) (orders.positions i) in
        let (e, f) =
          find_paths_to_ends P L (record p { graph = g }) (orders.links i) (links_ranged i)
            ru.ru_node (ap (lookup ru.ru_node) not_cached) in
        settle-Runs (dsg8_of P p) L ru (find_position P p orders i ru g)
          (Runs-bind (reads paths_of) choose_position g (ends-Runs (paths_of g) e f) (λ paths t h.
            validate-Runs P (dsg8_of P p) (orders.positions i) paths t L (
              paths_Distinct P L p orders links_ranged positions_ranged not_cached i ru.ru_node g
                paths (ap (λ x. x.0) h))))
          (λ position t h.
            let stands =
              find_position-Stands P L p orders links_ranged positions_ranged not_cached i ru g t
                position h in
            SimplePath-Distinct g.nodes p.root stands.path_simple)

    place_rus-Runs :
        (i : ℕ) (rus : List ChainPosition) (g : Graph Float Quantity)
        → Runs (place_rus P p orders i rus g).0
    unfolding place_rus
    place_rus-Runs i [] g = tt
    place_rus-Runs i (ru ∷ rest) g =
        proceed-Runs (place_rus P p orders (suc i) rest) rest (place_ru P p orders i ru g)
          (place_rus-Runs (suc i) rest) (place_ru-Runs i ru g)

    -- On any graph, with nothing in the cache of paths and for every order in which maps are iterated,
    -- `Place` comes to an end: its searches end within their fuel, and no
    -- `Get` waits for ever on an empty queue, neither in the search nor in `validateNetwork`.
    pub place-Runs : (rus : List ChainPosition) → Runs (place P p orders rus).0
    unfolding place
    place-Runs rus =
        begin-Runs (place_rus P p orders 0 rus) rus
          (with_context "validation of RU placement failed"
            (allocate_rus_resources P p.requested_resources rus) p.graph)
          (place_rus-Runs 0 rus)
          (Runs-wrapped "validation of RU placement failed"
            (allocate_rus_resources P p.requested_resources rus p.graph).0
            (allocate_rus_resources-Runs P p.requested_resources rus p.graph))
