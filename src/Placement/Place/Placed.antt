-- ===== src/Placement/Place/Placed.antt =====
-- The units as `Place` leaves them (operator/controllers/algorithm/placement.go).
use oai_k8s.Common.{
  String, ℕ, suc, ◌≡◌, refl, sym, ◌∙◌, subst, Option, none, some, List, [], ◌∷◌, Bool,
}
use oai_k8s.Common.{Memᴰ, Permᴰ, ◌⊎◌, inl, inr, Option-cases}
use oai_k8s.Common.{Result, ok, err, panic, hang, out_of_fuel, with_context}
use oai_k8s.Common.Contracts.{After-always, Keeps-with_context}
use oai_k8s.Common.Dict.{Dict, keys, lookup}
use oai_k8s.Extern.{Platform, Laws}
use oai_k8s.Api.{ChainPosition}
use oai_k8s.Utils.{Node}
use oai_k8s.Placement.State.{Graph, PlacementBfs, Position, Orders}
use oai_k8s.Placement.Dsg8.{Disaggregation8}
use oai_k8s.Placement.Paths.Walks.{Edge, SimplePath, origin, extend}
use oai_k8s.Placement.Network.Crossing.{SameLinks, links_at_of_lookup, links_at_of_none}
use oai_k8s.Placement.Place.{
  allocate_rus_resources, fulfill_ru, dsg8_of, find_position, settle, place_ru, proceed, place_rus,
  begin, place,
}
use oai_k8s.Placement.Place.Contracts.{settle-Keeps, allocate_rus-Keeps}
use oai_k8s.Placement.Place.Reading.{find_position-Keeps}
use oai_k8s.Placement.Place.Found.{Stands, find_position-Stands}
use oai_k8s.Placement.Place.Shape.{IsShapeOf, IsShapeOf-SameLinks, shaped, Writes-shaped}

-- Two lists of the same length whose elements are related one by one.
abbrev pub Each : {A B : Type 0} → (A → B → Type 0) → List A → List B → Type 0
Each R [] [] = Unit
Each R [] (y ∷ ys) = ⊥
Each R (x ∷ xs) [] = ⊥
Each R (x ∷ xs) (y ∷ ys) = R x y × Each R xs ys

Each-refl : {A : Type 0} (R : A → A → Type 0) → ((a : A) → R a a) → (xs : List A) → Each R xs xs
Each-refl R r [] = tt
Each-refl R r (x ∷ xs) = (r x, Each-refl R r xs)

module _ {Quantity : Type 0} where
  SameLinks-Edge :
      (nodes nodes' : Dict (Node Quantity))
      → SameLinks nodes nodes'
      → (u v : String) → Edge nodes' u v
      → Edge nodes u v
  SameLinks-Edge nodes nodes' same u v (node', look', m) = elim (Option-cases (lookup u nodes)) [
    | inl n ↦
        let bad =
          sym (links_at_of_lookup u nodes' node' look') ∙ same u ∙ links_at_of_none u nodes n in
        cc
    | inr (node, look) ↦
        let equal : some node'.links ≡ some node.links =
          sym (links_at_of_lookup u nodes' node' look')
          ∙ same u
          ∙ links_at_of_lookup u nodes node look in
        (node, look, subst (λ d. Memᴰ v (keys d)) (let e : node'.links ≡ node.links = cc in e) m)
  ]

  SameLinks-SimplePath :
      (nodes nodes' : Dict (Node Quantity)) (root : String)
      → SameLinks nodes nodes'
      → {path : List String} {u : String} → SimplePath nodes' root path u
      → SimplePath nodes root path u
  SameLinks-SimplePath nodes nodes' root same (origin e f) = origin e f
  SameLinks-SimplePath nodes nodes' root same (extend {u = u} {v = v} s d n e) =
      extend (SameLinks-SimplePath nodes nodes' root same s)
        (SameLinks-Edge nodes nodes' same u v d) n e

  -- A unit as it was, or fulfilled with a position.
  abbrev pub IsLeft : Dict (Node Quantity) → String → ChainPosition → ChainPosition → Type 0
  IsLeft nodes root ru ru' =
      (ru' ≡ ru)
      ⊎ ((position : Position) × (ru' ≡ fulfill_ru ru position)
          × Stands nodes root ru.ru_node position)

module _ (P : Platform) where
  open P use {Float, Quantity}

  settle-IsLeft :
      (d : Disaggregation8 Float Quantity) (nodes : Dict (Node Quantity)) (root : String)
      (ru : ChainPosition) (x : Result (Option Position) × Graph Float Quantity)
      → ((position : Position) (t : Graph Float Quantity)
          → x ≡ (ok (some position), t)
          → Stands nodes root ru.ru_node position)
      → IsLeft nodes root ru (settle P d ru x).2
  unfolding settle
  settle-IsLeft d nodes root ru (ok none, g) k = inl refl
  settle-IsLeft d nodes root ru (ok (some position), g) k = inr (position, refl, k position g refl)
  settle-IsLeft d nodes root ru (err e, g) k = inl refl
  settle-IsLeft d nodes root ru (panic, g) k = inl refl
  settle-IsLeft d nodes root ru (hang, g) k = inl refl
  settle-IsLeft d nodes root ru (out_of_fuel, g) k = inl refl

  module _ (R : ChainPosition → ChainPosition → Type 0) (R_refl : (ru : ChainPosition) → R ru ru)
      (next : Graph Float Quantity → Result Bool × Graph Float Quantity × List ChainPosition) where
    proceed-Each :
        (ru : ChainPosition) (rest : List ChainPosition)
        (x : Result (Unit {0}) × Graph Float Quantity × ChainPosition)
        → R ru x.2
        → Each R rest (next x.1).2
        → Each R (ru ∷ rest) (proceed P next rest x).2
    unfolding proceed
    proceed-Each ru rest (ok u, g, ru') r k = (r, k)
    proceed-Each ru rest (err e, g, ru') r k = (r, Each-refl R R_refl rest)
    proceed-Each ru rest (panic, g, ru') r k = (r, Each-refl R R_refl rest)
    proceed-Each ru rest (hang, g, ru') r k = (r, Each-refl R R_refl rest)
    proceed-Each ru rest (out_of_fuel, g, ru') r k = (r, Each-refl R R_refl rest)

    begin-Each :
        (rus : List ChainPosition) (x : Result (Unit {0}) × Graph Float Quantity)
        → Each R rus (next x.1).2
        → Each R rus (begin P next rus x).2
    unfolding begin
    begin-Each rus (ok u, g) k = k
    begin-Each rus (err e, g) k = Each-refl R R_refl rus
    begin-Each rus (panic, g) k = Each-refl R R_refl rus
    begin-Each rus (hang, g) k = Each-refl R R_refl rus
    begin-Each rus (out_of_fuel, g) k = Each-refl R R_refl rus

  module _ (L : Laws P) (p : PlacementBfs Float Quantity) (orders : Orders)
      (links_ranged : (i t : ℕ) (ks : List String) → Permᴰ (orders.links i t ks) ks)
      (positions_ranged : (i : ℕ) (ps : List (ℕ × Position)) → Permᴰ (orders.positions i ps) ps)
      (not_cached : p.cache_paths ≡ []) where
    place_ru-IsLeft :
        (i : ℕ) (ru : ChainPosition) (g : Graph Float Quantity)
        → IsShapeOf p.graph g
        → IsLeft p.graph.nodes p.root ru (place_ru P p orders i ru g).2
    unfolding place_ru
    place_ru-IsLeft i ru g h =
        settle-IsLeft (dsg8_of P p) p.graph.nodes p.root ru (find_position P p orders i ru g)
          (λ position t e.
            let stands =
              find_position-Stands P L p orders links_ranged positions_ranged not_cached i ru g t
                position e in
            record {
              path_simple =
                  SameLinks-SimplePath p.graph.nodes g.nodes p.root
                    (IsShapeOf-SameLinks p.graph g h) stands.path_simple;
              cu_second = stands.cu_second;
              du_between = stands.du_between;
            })

    place_ru-IsShapeOf :
        (i : ℕ) (ru : ChainPosition) (g : Graph Float Quantity)
        → IsShapeOf p.graph g
        → IsShapeOf p.graph (place_ru P p orders i ru g).1
    unfolding place_ru
    place_ru-IsShapeOf i ru g h =
        let found = find_position P p orders i ru g in
        let settled = settle P (dsg8_of P p) ru found in
        After-always (IsShapeOf p.graph) settled.0 settled.1 (
          settle-Keeps P (shaped P p.graph) (Writes-shaped P p.graph) (dsg8_of P p) ru found.0
            found.1
            ((find_position-Keeps P (shaped P p.graph) (Writes-shaped P p.graph).charged p orders i
                ru).at
              g h))

    place_rus-Each :
        (i : ℕ) (rus : List ChainPosition) (g : Graph Float Quantity)
        → IsShapeOf p.graph g
        → Each (IsLeft p.graph.nodes p.root) rus (place_rus P p orders i rus g).2
    unfolding place_rus
    place_rus-Each i [] g h = tt
    place_rus-Each i (ru ∷ rest) g h =
        proceed-Each (IsLeft p.graph.nodes p.root) (λ ru. inl refl)
          (place_rus P p orders (suc i) rest) ru rest (place_ru P p orders i ru g)
          (place_ru-IsLeft i ru g h)
          (place_rus-Each (suc i) rest (place_ru P p orders i ru g).1 (place_ru-IsShapeOf i ru g h))

    -- Whatever `Place` answers, with nothing in the cache of paths and for every order in which maps are
    -- iterated: it leaves the units in their order, each as it was, or with a path, a CU and a DU such that the path
    -- is a simple path along the links of the graph from the root to the node of the unit, the CU is on its second
    -- node, and the DU has no node or one between that and the last one.
    pub place-Each :
        (rus : List ChainPosition) → Each (IsLeft p.graph.nodes p.root) rus (place P p orders rus).2
    unfolding place
    place-Each rus =
        let allocate = allocate_rus_resources P p.requested_resources rus in
        let start = with_context "validation of RU placement failed" allocate p.graph in
        begin-Each (IsLeft p.graph.nodes p.root) (λ ru. inl refl) (place_rus P p orders 0 rus) rus
          start
          (place_rus-Each 0 rus start.1 (
            After-always (IsShapeOf p.graph) start.0 start.1 (
              (Keeps-with_context (shaped P p.graph) "validation of RU placement failed" allocate (
                  allocate_rus-Keeps P (shaped P p.graph) (Writes-shaped P p.graph)
                    p.requested_resources rus)).at
                p.graph (record { same_nodes = λ j. refl; same_links = λ j. refl }))))
