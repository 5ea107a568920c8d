-- ===== src/Placement/Place/Reading.antt =====
-- What the walks over the network and the search for a position keep (operator/controllers/algorithm/dsg8.go, placement.go): they
-- write to links only.
use oai_k8s.Common.{
  String, ℕ, ◌≡◌, Option, none, some, List, [], ◌∷◌, Bool, true, false, if◌then◌else◌, get_elem?,
}
use oai_k8s.Common.{Option-cases, inl, inr}
use oai_k8s.Common.{panic, Action, pure, lift, deref, ◌>>=◌}
use oai_k8s.Common.Contracts.{
  Contract, After, Keeps, After-reads_bind, Keeps-bind, Keeps-lift, Keeps-pure, Keeps-if,
}
use oai_k8s.Common.Dict.{lookup}
use oai_k8s.Extern.{Platform, is_nil}
use oai_k8s.Api.{ChainPosition, Disaggregation, NetworkRequirements}
use oai_k8s.Utils.{Link}
use oai_k8s.Utils.StringSets.{StringSet, new_string_set}
use oai_k8s.Placement.State.{Graph, PlacementBfs, Position, Orders}
use oai_k8s.Placement.Dsg8.{Disaggregation8, candidates}
use oai_k8s.Placement.Paths.{find_paths_to}
use oai_k8s.Placement.Network.{
  Walk, next_segment, link_to, charge, cross_link, cross, advance, walk_path, first_walk,
  validate_network,
}
use oai_k8s.Placement.Network.Crossing.{link_to-Points}
use oai_k8s.Placement.Place.{choose, first_valid, validate, dsg8_of, find_position}

module _ (P : Platform) where
  open P use {Float, Quantity}

  -- The call that writes into a link that is there.
  abbrev pub Charges : Contract (Graph Float Quantity) → Type 0
  Charges C =
      (l : String) (link : Link Float) (r : NetworkRequirements Float) (w : Walk P)
      (g : Graph Float Quantity)
      → lookup l g.links ≡ some link
      → C.good g
      → After C (charge P l link r w g).0 (charge P l link r w g).1

  module _ (C : Contract (Graph Float Quantity)) (charged : Charges C) where
    taken :
        (allocate : Bool) (l : String) (link : Link Float) (g : Graph Float Quantity)
        → lookup l g.links ≡ some link
        → C.good g
        → (r : NetworkRequirements Float) (w : Walk P) (fit : Bool)
        → let m = if allocate then charge P l link r w else pure (if fit then some w else none) in
          After C (m g).0 (m g).1
    taken true l link g e h r w fit = charged l link r w g e h
    taken false l link g e h r w fit = h

    cross_link-Keeps :
        (allocate : Bool) (w : Walk P) (l : String) (link : Link Float) (g : Graph Float Quantity)
        → lookup l g.links ≡ some link
        → C.good g
        → After C (cross_link P allocate w (l, link) g).0 (cross_link P allocate w (l, link) g).1
    unfolding cross_link
    cross_link-Keeps allocate w l link g e h = elim (Option-cases w.requirement) [
      | inl n ↦ rw (n, cross_link) (C.weaken g h)
      | inr (r, x) ↦ rw (x, cross_link) (taken allocate l link g e h r _ _)
    ]

    cross-Keeps : (allocate : Bool) (w : Walk P) (u v : String) → Keeps C (cross P allocate w u v)
    unfolding cross
    cross-Keeps allocate w u v = record {
      at = λ g h. After-reads_bind C (link_to P g u v) (cross_link P allocate w) g h (λ (l, link) e.
          cross_link-Keeps allocate w l link g (link_to-Points P g u v l link e).1 h);
    }

    advance-Keeps :
        (next : Walk P → Action (Graph Float Quantity) Bool) (crossed : Option (Walk P))
        → ((w : Walk P) → Keeps C (next w))
        → Keeps C (advance P next crossed)
    advance-Keeps next none k = Keeps-pure C false
    advance-Keeps next (some w) k = k w

    walk_path-Keeps :
        (allocate : Bool) (placement : StringSet) (path : List String) (w : Walk P)
        → Keeps C (walk_path P allocate placement w path)
    unfolding walk_path
    walk_path-Keeps allocate placement [] w = Keeps-pure C true
    walk_path-Keeps allocate placement (a ∷ []) w = Keeps-lift C _
    walk_path-Keeps allocate placement (a ∷ b ∷ rest) w =
        let next = λ (w : Walk P). walk_path P allocate placement w (b ∷ rest) in
        Keeps-bind C (lift (next_segment P placement a w))
          (λ w'. cross P allocate w' a b >>= advance P next)
          (Keeps-lift C (next_segment P placement a w))
          (λ w'.
            Keeps-bind C (cross P allocate w' a b) (advance P next) (cross-Keeps allocate w' a b)
              (λ crossed.
                advance-Keeps next crossed (walk_path-Keeps allocate placement (b ∷ rest))))

    pub validate_network-Keeps :
        (r : Option (Disaggregation Float)) (path : List String) (cu du : String) (allocate : Bool)
        → Keeps C (validate_network P r path cu du allocate)
    unfolding validate_network
    validate_network-Keeps none path cu du allocate = Keeps-lift C panic
    validate_network-Keeps (some r) [] cu du allocate = Keeps-lift C panic
    validate_network-Keeps (some r) (a ∷ path) cu du allocate =
        walk_path-Keeps allocate (new_string_set (a ∷ cu ∷ du ∷ [])) (a ∷ path) (first_walk P r)

    choose-Keeps :
        (d : Disaggregation8 Float Quantity) (v : Position)
        (next : Action (Graph Float Quantity) (Option Position))
        → Keeps C next
        → (good : Bool) → Keeps C (choose P d v next good)
    choose-Keeps d v next k true = Keeps-pure C (some v)
    choose-Keeps d v next k false = k

    first_valid-Keeps :
        (d : Disaggregation8 Float Quantity) (paths : List (List String)) (ps : List (ℕ × Position))
        → Keeps C (first_valid P d paths ps)
    unfolding first_valid
    first_valid-Keeps d paths [] = Keeps-pure C none
    first_valid-Keeps d paths ((p, v) ∷ rest) =
        let check = λ (path : List String).
          validate_network P d.network_requirements path v.cu_node_name v.du_node_name false in
        let next = choose P d v (first_valid P d paths rest) in
        Keeps-bind C (lift (deref (get_elem? paths p))) (λ path. check path >>= next)
          (Keeps-lift C (deref (get_elem? paths p)))
          (λ path.
            Keeps-bind C (check path) next
              (validate_network-Keeps d.network_requirements path v.cu_node_name v.du_node_name
                false)
              (choose-Keeps d v (first_valid P d paths rest) (first_valid-Keeps d paths rest)))

    validate-Keeps :
        (d : Disaggregation8 Float Quantity) (order : List (ℕ × Position) → List (ℕ × Position))
        (paths : List (List String))
        → Keeps C (validate P d order paths)
    unfolding validate
    validate-Keeps d order paths =
        let pick = λ (ps : List (ℕ × Position)).
          if is_nil ps
          then pure {S = Graph Float Quantity} none
          else first_valid P d paths (order ps) in
        record {
          at = λ g h. After-reads_bind C (candidates P d g.nodes 0 paths) pick g h (λ ps _.
              (Keeps-if C (is_nil ps) (pure none) (first_valid P d paths (order ps))
                  (Keeps-pure C none) (first_valid-Keeps d paths (order ps))).at
                g h);
        }

    pub find_position-Keeps :
        (p : PlacementBfs Float Quantity) (orders : Orders) (i : ℕ) (ru : ChainPosition)
        → Keeps C (find_position P p orders i ru)
    unfolding find_position
    find_position-Keeps p orders i ru = record {
      at = λ g h.
          After-reads_bind C (find_paths_to P (record p { graph = g }) (orders.links i) ru.ru_node)
            (validate P (dsg8_of P p) (orders.positions i)) g h
            (λ paths _. (validate-Keeps (dsg8_of P p) (orders.positions i) paths).at g h);
    }
