-- ===== src/Placement/Place.antt =====
-- `Validate` and `AllocateResources` of disaggregation 8 (operator/controllers/algorithm/dsg8.go), and
-- `Place` with its parts (operator/controllers/algorithm/placement.go).
pub mod Candidates
pub mod Picked
pub mod Grants
pub mod Answer
pub mod Reading
pub mod Contracts
pub mod Solvent
pub mod Found
pub mod Ends
pub mod Shape
pub mod Placed
pub mod Accounts
pub mod Bounds
use oai_k8s.Common.{String, ℕ, suc, Option, none, some, List, [], ◌∷◌}
use oai_k8s.Common.{Bool, true, false, get_elem?, concat_text, if◌then◌else◌}
use oai_k8s.Common.{Result, Error, ok, err, panic, hang, out_of_fuel, deref, Action, pure}
use oai_k8s.Common.{◌>>=◌, ◌>>◌, lift, reads, with_context, wrap_nil}
use oai_k8s.Common.Dict.{insert, lookup}
use oai_k8s.Extern.{Platform, is_nil}
use oai_k8s.Api.{ChainPosition}
use oai_k8s.Utils.{RequestedResources}
use oai_k8s.Utils.Nodes
use oai_k8s.Placement.State.{Graph, PlacementBfs, Position, Orders}
use oai_k8s.Placement.Paths.{find_paths_to}
use oai_k8s.Placement.Dsg8.{Disaggregation8, candidates, dsg8_key}
use oai_k8s.Placement.Network.{validate_network}

-- `fulfillRU`
unfoldable pub fulfill_ru : ChainPosition → Position → ChainPosition
fulfill_ru ru final_pos = record ru {
  du_node = final_pos.du_node_name;
  cu_node = final_pos.cu_node_name;
  path = final_pos.path;
  disaggregation = final_pos.disaggregation_key;
}

-- The two values of an answer of `Place`, the second one nil or an error: both returns with an error say false.
-- Where it panics or does not end there are none.
unfoldable pub returned : Result Bool → Option (Bool × Option Error)
returned (ok b) = some (b, none)
returned (err e) = some (false, some e)
returned panic = none
returned hang = none
returned out_of_fuel = none

module _ (P : Platform) where
  open P use {Float, Quantity}

  -- A method call on a node that the graph holds by a pointer.
  unfoldable pub allocate_node :
      RequestedResources Quantity → String → Action (Graph Float Quantity) (Unit {0})
  allocate_node requested name g = elim (lookup name g.nodes) [
    | none ↦ (panic, g)
    | some node ↦
        let (r, node') = Nodes.allocate_resources P node requested.memory requested.cpu in
        (r, record g { nodes = insert name node' g.nodes })
  ]

  module _ (d : Disaggregation8 Float Quantity) where
    -- `return true, candidate`, or the next candidate.
    abbrev pub choose :
        Position
        → Action (Graph Float Quantity) (Option Position)
        → Bool
        → Action (Graph Float Quantity) (Option Position)
    choose position next true = pure (some position)
    choose position next false = next

    -- The second loop of `Validate`, over the positions in the order in which `range` meets them.
    unfoldable pub first_valid :
        List (List String) → List (ℕ × Position) → Action (Graph Float Quantity) (Option Position)
    first_valid paths [] = pure none
    first_valid paths ((p, position) ∷ rest) = do
      path ← lift (deref (get_elem? paths p))
      is_valid ←
          validate_network P d.network_requirements path position.cu_node_name position.du_node_name
            false
      choose position (first_valid paths rest) is_valid

    -- `some` is `true` with a position, `none` is `false` with nil.
    unfoldable pub validate :
        (List (ℕ × Position) → List (ℕ × Position))
        → List (List String)
        → Action (Graph Float Quantity) (Option Position)
    unfolding candidates first_valid validate_network
    validate order paths = do
      positions ← reads (λ g. candidates P d g.nodes 0 paths)
      if is_nil positions then pure none else first_valid paths (order positions)

    unfoldable pub allocate_resources : ChainPosition → Action (Graph Float Quantity) (Unit {0})
    unfolding allocate_node validate_network
    allocate_resources ru = do
      with_context "error allocating du resources" (allocate_node d.requested_resources ru.du_node)
      with_context "error allocating cu resources" (allocate_node d.requested_resources ru.cu_node)
      success ←
          with_context "error allocating network resources"
            (validate_network P d.network_requirements ru.path ru.cu_node ru.du_node true)
      lift (if success then ok tt else err (wrap_nil "error allocating network resources"))

  unfoldable pub allocate_rus_resources :
      RequestedResources Quantity → List ChainPosition → Action (Graph Float Quantity) (Unit {0})
  unfolding allocate_node
  allocate_rus_resources requested [] = pure tt
  allocate_rus_resources requested (ru ∷ rest) = do
    with_context
        (concat_text (
          "error allocating split '" ∷ ru.split_name ∷ "' in node '" ∷ ru.ru_node
          ∷ "'. Not enough resources available" ∷ []))
        (allocate_node requested ru.ru_node)
    allocate_rus_resources requested rest

  abbrev pub dsg8_of : PlacementBfs Float Quantity → Disaggregation8 Float Quantity
  dsg8_of p = record {
    requested_resources = p.requested_resources;
    network_requirements = lookup dsg8_key p.disaggregations;
  }

  -- `findPathsTo` and `Validate` for the unit of index `i`.
  unfoldable pub find_position :
      PlacementBfs Float Quantity
      → Orders
      → ℕ
      → ChainPosition
      → Action (Graph Float Quantity) (Option Position)
  unfolding find_paths_to validate
  find_position p orders i ru = do
    paths ← reads (λ g. find_paths_to P (record p { graph = g }) (orders.links i) ru.ru_node)
    validate (dsg8_of p) (orders.positions i) paths

  -- The branches behind `Validate`. The unit is written through its pointer.
  unfoldable pub settle :
      Disaggregation8 Float Quantity
      → ChainPosition
      → Result (Option Position) × Graph Float Quantity
      → Result (Unit {0}) × Graph Float Quantity × ChainPosition
  unfolding allocate_resources fulfill_ru
  settle d ru (ok none, g) = (ok tt, g, ru)
  settle d ru (ok (some position), g) =
      let ru' = fulfill_ru ru position in
      let (r, g') = with_context "error updating resources" (allocate_resources d ru') g in
      (r, g', ru')
  settle d ru (err e, g) = (err e, g, ru)
  settle d ru (panic, g) = (panic, g, ru)
  settle d ru (hang, g) = (hang, g, ru)
  settle d ru (out_of_fuel, g) = (out_of_fuel, g, ru)

  -- One round of the loop of `Place`.
  unfoldable pub place_ru :
      PlacementBfs Float Quantity
      → Orders
      → ℕ
      → ChainPosition
      → Graph Float Quantity
      → Result (Unit {0}) × Graph Float Quantity × ChainPosition
  unfolding find_position settle
  place_ru p orders i ru g = settle (dsg8_of p) ru (find_position p orders i ru g)

  -- The rest of the loop behind a round.
  unfoldable pub proceed :
      (Graph Float Quantity → Result Bool × Graph Float Quantity × List ChainPosition)
      → List ChainPosition
      → Result (Unit {0}) × Graph Float Quantity × ChainPosition
      → Result Bool × Graph Float Quantity × List ChainPosition
  proceed next rest (ok u, g, ru) = let (r, g', rest') = next g in (r, g', ru ∷ rest')
  proceed next rest (err e, g, ru) = (err e, g, ru ∷ rest)
  proceed next rest (panic, g, ru) = (panic, g, ru ∷ rest)
  proceed next rest (hang, g, ru) = (hang, g, ru ∷ rest)
  proceed next rest (out_of_fuel, g, ru) = (out_of_fuel, g, ru ∷ rest)

  -- The loop: what it returns, the graph, and the units as they are left.
  unfoldable pub place_rus :
      PlacementBfs Float Quantity
      → Orders
      → ℕ
      → List ChainPosition
      → Graph Float Quantity
      → Result Bool × Graph Float Quantity × List ChainPosition
  unfolding place_ru proceed
  place_rus p orders i [] g = (ok true, g, [])
  place_rus p orders i (ru ∷ rest) g =
      proceed (place_rus p orders (suc i) rest) rest (place_ru p orders i ru g)

  -- The loop, unless the units themselves found no room.
  unfoldable pub begin :
      (Graph Float Quantity → Result Bool × Graph Float Quantity × List ChainPosition)
      → List ChainPosition
      → Result (Unit {0}) × Graph Float Quantity
      → Result Bool × Graph Float Quantity × List ChainPosition
  begin next rus (ok u, g) = next g
  begin next rus (err e, g) = (err e, g, rus)
  begin next rus (panic, g) = (panic, g, rus)
  begin next rus (hang, g) = (hang, g, rus)
  begin next rus (out_of_fuel, g) = (out_of_fuel, g, rus)

  -- The answer is that of `returned`. The units are objects: the CRD lets no null into the list.
  unfoldable pub place :
      PlacementBfs Float Quantity
      → Orders
      → List ChainPosition
      → Result Bool × Graph Float Quantity × List ChainPosition
  unfolding allocate_rus_resources place_rus begin
  place p orders rus = begin (place_rus p orders 0 rus) rus (
      with_context "validation of RU placement failed"
        (allocate_rus_resources p.requested_resources rus) p.graph)
