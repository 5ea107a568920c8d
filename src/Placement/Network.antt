-- ===== src/Placement/Network.antt =====
-- `validateNetwork` (operator/controllers/algorithm/dsg8.go): the walk along a path, which checks or
-- takes the bandwidth of its links.
pub mod Crossing
pub mod Allocation
pub mod Waits
use oai_k8s.Common.{String, ℕ, ◌≡◌, Option, none, some, List, [], ◌∷◌, ◌++◌}
use oai_k8s.Common.{Bool, true, false, not, ◌&&◌, ◌||◌, if◌then◌else◌, get_elem?}
use oai_k8s.Common.{
  Result, ok, err, panic, hang, out_of_fuel, deref, and_then, wrapped, Action, pure,
}
use oai_k8s.Common.{◌>>=◌, lift, reads}
use oai_k8s.Common.Dict.{Dict, insert, lookup}
use oai_k8s.Extern.{Platform}
use oai_k8s.Api.{Disaggregation, NetworkRequirements}
use oai_k8s.Utils.{Node, Link}
use oai_k8s.Utils.Links
use oai_k8s.Utils.StringSets.{StringSet, new_string_set, has}
use oai_k8s.Placement.State.{Graph}

module _ (P : Platform) where
  open P use {Float, Quantity, Queue, zero_float, add_float, lt_float, new_queue, put, get}

  abbrev pub Requirement : Type 0
  Requirement = Option (NetworkRequirements Float)

  -- The variables of the loop of `validateNetwork`.
  pub record Walk : Type 0 where
    pub disaggregation_queue : Queue Requirement
    pub requirement : Requirement
    pub total_latency : Float

  -- A node that runs a part of the chain: the next segment of the network begins.
  unfoldable pub next_segment : StringSet → String → Walk → Result Walk
  next_segment placement_nodes node_name w =
      if has placement_nodes node_name
      then elim (get Requirement w.disaggregation_queue) [
        | none ↦ hang
        | some (r, q) ↦
            ok (record { disaggregation_queue = q; requirement = r; total_latency = zero_float })
      ]
      else ok w

  -- `node.Links[nextNodeName]`: the name that the pointer stands for, and the link.
  unfoldable pub link_to : Graph Float Quantity → String → String → Result (String × Link Float)
  link_to g node_name next_node_name = and_then (deref (lookup node_name g.nodes)) (λ node.
      and_then (deref (lookup next_node_name node.links))
        (λ pointer. and_then (deref (lookup pointer g.links)) (λ link. ok (pointer, link))))

  -- The test of the branch without allocation.
  abbrev pub fits : Link Float → NetworkRequirements Float → Float → Bool
  fits link requirement total =
      Links.has_bandwidth P link requirement.bandwidth
      && not (lt_float zero_float requirement.latency && lt_float requirement.latency total)

  -- The branch that allocates.
  unfoldable pub charge :
      String
      → Link Float
      → NetworkRequirements Float
      → Walk
      → Action (Graph Float Quantity) (Option Walk)
  charge pointer link requirement w g =
      let (r, link') = Links.allocate_resources P link requirement.bandwidth in
      (
        and_then (wrapped "error allocating resources" r) (λ _. ok (some w)),
        record g { links = insert pointer link' g.links },
      )

  -- The rest of the loop body, for the link to the next node: `ok none` is `return false, nil`.
  unfoldable pub cross_link :
      Bool → Walk → String × Link Float → Action (Graph Float Quantity) (Option Walk)
  cross_link allocate w (pointer, link) = do
    requirement ← lift (deref w.requirement)
    let w' = record w { total_latency = add_float w.total_latency link.latency }
    if allocate
        then charge pointer link requirement w'
        else pure (if fits link requirement w'.total_latency then some w' else none)

  unfoldable pub cross : Bool → Walk → String → String → Action (Graph Float Quantity) (Option Walk)
  cross allocate w node_name next_node_name =
      reads (λ g. link_to g node_name next_node_name) >>= cross_link allocate w

  -- The next round, unless the loop returned.
  abbrev pub advance :
      (Walk → Action (Graph Float Quantity) Bool) → Option Walk → Action (Graph Float Quantity) Bool
  advance next none = pure false
  advance next (some w) = next w

  -- The loop over the path.
  unfoldable pub walk_path :
      Bool → StringSet → Walk → List String → Action (Graph Float Quantity) Bool
  walk_path allocate placement_nodes w [] = pure true
  walk_path allocate placement_nodes w (node_name ∷ []) =
      lift (and_then (next_segment placement_nodes node_name w) (λ _. ok true))
  walk_path allocate placement_nodes w (node_name ∷ next_node_name ∷ rest) = do
    w' ← lift (next_segment placement_nodes node_name w)
    crossed ← cross allocate w' node_name next_node_name
    advance (λ w''. walk_path allocate placement_nodes w'' (next_node_name ∷ rest)) crossed

  -- Its three requirements in a queue, and none read yet.
  abbrev pub first_walk : Disaggregation Float → Walk
  first_walk r = record {
    disaggregation_queue =
        put Requirement (new_queue Requirement 3) (r.backhaul ∷ r.midhaul ∷ r.fronthaul ∷ []);
    requirement = none;
    total_latency = zero_float;
  }

  unfoldable pub validate_network :
      Option (Disaggregation Float)
      → List String
      → (cu_node du_node : String) → Bool
      → Action (Graph Float Quantity) Bool
  unfolding walk_path new_string_set next_segment cross link_to cross_link charge
  validate_network requirements path cu_node du_node allocate = do
    r ← lift (deref requirements)
    first ← lift (deref (get_elem? path 0))
    walk_path allocate (new_string_set (first ∷ cu_node ∷ du_node ∷ [])) (first_walk r) path
