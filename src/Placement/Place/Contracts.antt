-- ===== src/Placement/Place/Contracts.antt =====
-- Contracts of `Place` (operator/controllers/algorithm/placement.go, dsg8.go): what its two writes keep, the
-- whole of it keeps.
use oai_k8s.Common.{String, ℕ, suc, Option, none, some, List, [], ◌∷◌, Bool}
use oai_k8s.Common.{Result, ok, err, panic, hang, out_of_fuel, with_context}
use oai_k8s.Common.Contracts.{
  Contract, After, Keeps, Keeps-bind, Keeps-with_context, Keeps-pure, keeps_rules,
}
use oai_k8s.Extern.{Platform}
use oai_k8s.Api.{ChainPosition}
use oai_k8s.Utils.{RequestedResources}
use oai_k8s.Placement.State.{Graph, PlacementBfs, Position, Orders}
use oai_k8s.Placement.Dsg8.{Disaggregation8}
use oai_k8s.Placement.Place.{
  allocate_node, allocate_resources, allocate_rus_resources, dsg8_of, find_position, fulfill_ru,
  settle, place_ru, proceed, place_rus, begin, place,
}
use oai_k8s.Placement.Place.Reading.{Charges, validate_network-Keeps, find_position-Keeps}

module _ (P : Platform) where
  open P use {Float, Quantity}

  -- The two calls that write: into a link that is there, and into a node.
  pub record Writes (C : Contract (Graph Float Quantity)) : Type 0 where
    pub charged : Charges P C
    pub allocated :
        (requested : RequestedResources Quantity) (name : String)
        → Keeps C (allocate_node P requested name)

  module _ (C : Contract (Graph Float Quantity)) (W : Writes C) where
    allocate_resources-Keeps :
        (d : Disaggregation8 Float Quantity) (ru : ChainPosition)
        → Keeps C (allocate_resources P d ru)
    unfolding allocate_resources
    allocate_resources-Keeps d ru =
        let network = validate_network-Keeps P C W.charged in
        search (keeps_rules, W.allocated, network)

    pub allocate_rus-Keeps :
        (requested : RequestedResources Quantity) (rus : List ChainPosition)
        → Keeps C (allocate_rus_resources P requested rus)
    unfolding allocate_rus_resources
    allocate_rus-Keeps requested [] = Keeps-pure C tt
    allocate_rus-Keeps requested (ru ∷ rest) =
        Keeps-bind C (with_context _ (allocate_node P requested ru.ru_node))
          (λ _. allocate_rus_resources P requested rest)
          (Keeps-with_context C _ (allocate_node P requested ru.ru_node)
            (W.allocated requested ru.ru_node))
          (λ _. allocate_rus-Keeps requested rest)

    pub settle-Keeps :
        (d : Disaggregation8 Float Quantity) (ru : ChainPosition) (r : Result (Option Position))
        (g : Graph Float Quantity)
        → After C r g
        → let x = settle P d ru (r, g) in After C x.0 x.1
    unfolding settle
    settle-Keeps d ru (ok none) g h = h
    settle-Keeps d ru (ok (some position)) g h =
        (Keeps-with_context C "error updating resources"
            (allocate_resources P d (fulfill_ru ru position))
            (allocate_resources-Keeps d (fulfill_ru ru position))).at
          g h
    settle-Keeps d ru (err e) g h = h
    settle-Keeps d ru panic g h = h
    settle-Keeps d ru hang g h = h
    settle-Keeps d ru out_of_fuel g h = h

    proceed-Keeps :
        (next : Graph Float Quantity → Result Bool × Graph Float Quantity × List ChainPosition)
        (rest : List ChainPosition) (r : Result (Unit {0})) (g : Graph Float Quantity)
        (ru : ChainPosition)
        → After C r g
        → ((g : Graph Float Quantity) → C.good g → After C (next g).0 (next g).1)
        → let x = proceed P next rest (r, g, ru) in After C x.0 x.1
    unfolding proceed
    proceed-Keeps next rest (ok u) g ru h k = k g h
    proceed-Keeps next rest (err e) g ru h k = h
    proceed-Keeps next rest panic g ru h k = h
    proceed-Keeps next rest hang g ru h k = h
    proceed-Keeps next rest out_of_fuel g ru h k = h

    begin-Keeps :
        (next : Graph Float Quantity → Result Bool × Graph Float Quantity × List ChainPosition)
        (rus : List ChainPosition) (r : Result (Unit {0})) (g : Graph Float Quantity)
        → After C r g
        → ((g : Graph Float Quantity) → C.good g → After C (next g).0 (next g).1)
        → let x = begin P next rus (r, g) in After C x.0 x.1
    unfolding begin
    begin-Keeps next rus (ok u) g h k = k g h
    begin-Keeps next rus (err e) g h k = h
    begin-Keeps next rus panic g h k = h
    begin-Keeps next rus hang g h k = h
    begin-Keeps next rus out_of_fuel g h k = h

    place_rus-Keeps :
        (p : PlacementBfs Float Quantity) (orders : Orders) (i : ℕ) (rus : List ChainPosition)
        (g : Graph Float Quantity)
        → C.good g
        → let x = place_rus P p orders i rus g in After C x.0 x.1
    unfolding place_rus place_ru
    place_rus-Keeps p orders i [] g h = h
    place_rus-Keeps p orders i (ru ∷ rest) g h =
        let d = dsg8_of P p in
        let found = find_position P p orders i ru g in
        let settled = settle P d ru found in
        proceed-Keeps (place_rus P p orders (suc i) rest) rest settled.0 settled.1 settled.2
          (settle-Keeps d ru found.0 found.1
            ((find_position-Keeps P C W.charged p orders i ru).at g h))
          (place_rus-Keeps p orders (suc i) rest)

    pub place-Keeps :
        (p : PlacementBfs Float Quantity) (orders : Orders) (rus : List ChainPosition)
        → C.good p.graph
        → let x = place P p orders rus in After C x.0 x.1
    unfolding place
    place-Keeps p orders rus h =
        let start =
          with_context "validation of RU placement failed"
            (allocate_rus_resources P p.requested_resources rus) in
        begin-Keeps (place_rus P p orders 0 rus) rus (start p.graph).0 (start p.graph).1
          ((Keeps-with_context C "validation of RU placement failed"
              (allocate_rus_resources P p.requested_resources rus)
              (allocate_rus-Keeps p.requested_resources rus)).at
            p.graph h)
          (place_rus-Keeps p orders 0 rus)
