-- ===== src/Placement/Place/Bounds.antt =====
-- How much `Place` puts on a node (operator/controllers/algorithm/placement.go, dsg8.go): no more than the node has.
use oai_k8s.Common.{
  String, ℕ, zero, suc, ◌≡◌, refl, ap, ◌∙◌, subst, Option, none, some, List, [], Bool, false, arith,
}
use oai_k8s.Common.{ok}
use oai_k8s.Common.Int.{ℤ, pos, ◌+ℤ◌, ◌-ℤ◌, ◌≤ℤ◌, ltb_ℤ, eq_of_parts, +ℤ_parts, -ℤ_parts}
use oai_k8s.Common.Dict.{lookup}
use oai_k8s.Extern.{Platform}
use oai_k8s.Api.{ChainPosition}
use oai_k8s.Utils.{Node, RequestedResources}
use oai_k8s.Utils.Nodes
use oai_k8s.Placement.State.{Graph, PlacementBfs, Position, Orders}
use oai_k8s.Placement.Place.{place}
use oai_k8s.Placement.Place.Solvent.{IsSolvent, place-IsSolvent}
use oai_k8s.Placement.Place.Accounts.{count, units_on, positions_on, outcomes, spent, spent_step}
use oai_k8s.Placement.Place.Accounts.Placing.{place-Accounts}

-- `k` times an integer.
abbrev pub times : ℕ → ℤ → ℤ
times zero a = pos 0
times (suc k) a = times k a +ℤ a

-- A quantity is an exact amount. `Sub` subtracts amounts, and `Value`, which rounds away from zero, is negative where the
-- amount is.
pub record Amounts (P : Platform) : Type 0 where
  pub amount : P.Quantity → ℤ
  pub amount_sub : (a b : P.Quantity) → amount (P.sub_quantity a b) ≡ amount a -ℤ amount b
  pub amount_sign :
      (a : P.Quantity) → ltb_ℤ (P.value a) (pos 0) ≡ false → ltb_ℤ (amount a) (pos 0) ≡ false

taken_off : (a t r : ℤ) → (a -ℤ t) -ℤ r ≡ a -ℤ (t +ℤ r)
taken_off a t r = eq_of_parts _ _ (omega (arith, -ℤ_parts, +ℤ_parts))

none_off : (a : ℤ) → a ≡ a -ℤ pos 0
none_off a = eq_of_parts _ _ (omega (arith, -ℤ_parts))

covered : (a t : ℤ) → ltb_ℤ (a -ℤ t) (pos 0) ≡ false → t ≤ℤ a
covered a t h = ground (arith, -ℤ_parts a t, h)

module _ (P : Platform) (A : Amounts P) where
  open P use {Float, Quantity}
  open A use {amount}

  spend : RequestedResources Quantity → ℕ → Node Quantity → Node Quantity
  spend requested zero node = node
  spend requested (suc k) node =
      (Nodes.allocate_resources P (spend requested k node) requested.memory requested.cpu).1

  module _ (requested : RequestedResources Quantity) (node : Node Quantity) where
    spent-some : (k : ℕ) → spent P requested k (some node) ≡ some (spend requested k node)
    unfolding spend
    spent-some zero = refl
    spent-some (suc k) =
        spent_step P requested k (some node) (spend requested k node) (spent-some k)

    amount-memory :
        (k : ℕ)
        → amount (spend requested k node).resources.memory_available
          ≡ amount node.resources.memory_available -ℤ times k (amount requested.memory)
    unfolding spend Nodes.allocate_resources
    amount-memory zero = none_off (amount node.resources.memory_available)
    amount-memory (suc k) =
        A.amount_sub (spend requested k node).resources.memory_available requested.memory
        ∙ ap (λ a. a -ℤ amount requested.memory) (amount-memory k)
        ∙ taken_off (amount node.resources.memory_available) (times k (amount requested.memory))
            (amount requested.memory)

    amount-cpu :
        (k : ℕ)
        → amount (spend requested k node).resources.cpu_available
          ≡ amount node.resources.cpu_available -ℤ times k (amount requested.cpu)
    unfolding spend Nodes.allocate_resources
    amount-cpu zero = none_off (amount node.resources.cpu_available)
    amount-cpu (suc k) =
        A.amount_sub (spend requested k node).resources.cpu_available requested.cpu
        ∙ ap (λ a. a -ℤ amount requested.cpu) (amount-cpu k)
        ∙ taken_off (amount node.resources.cpu_available) (times k (amount requested.cpu))
            (amount requested.cpu)

  -- A node, where there is one, has enough for a number of requests.
  abbrev pub Suffices : RequestedResources Quantity → ℕ → Option (Node Quantity) → Type 0
  Suffices requested k none = Unit
  Suffices requested k (some node) =
      (times k (amount requested.memory) ≤ℤ amount node.resources.memory_available)
      × (times k (amount requested.cpu) ≤ℤ amount node.resources.cpu_available)

  spent-Suffices :
      (requested : RequestedResources Quantity) (g' : Graph Float Quantity) (name : String) (k : ℕ)
      (o : Option (Node Quantity))
      → IsSolvent P g'
      → lookup name g'.nodes ≡ spent P requested k o
      → Suffices requested k o
  spent-Suffices requested g' name k none after e = tt
  spent-Suffices requested g' name k (some node) after e =
      let last = spend requested k node in
      let (memory, cpu) = after.nodes_left name last (e ∙ spent-some requested node k) in
      (
        covered (amount node.resources.memory_available) (times k (amount requested.memory)) (
            subst (λ a. ltb_ℤ a (pos 0) ≡ false) (amount-memory requested node k)
              (A.amount_sign last.resources.memory_available memory)),
        covered (amount node.resources.cpu_available) (times k (amount requested.cpu)) (
            subst (λ a. ltb_ℤ a (pos 0) ≡ false) (amount-cpu requested node k)
              (A.amount_sign last.resources.cpu_available cpu)),
      )

  -- When `Place` answers on a graph in which no node and no link has less than nothing left: with a position or none for
  -- each unit, which the unit was fulfilled with, the requests of all units, CUs and DUs that are put on a node add up to no more
  -- than the memory and the CPU that the node had.
  pub place-Suffices :
      (p : PlacementBfs Float Quantity) (orders : Orders) (rus out : List ChainPosition)
      (g' : Graph Float Quantity) (b : Bool)
      → IsSolvent P p.graph
      → place P p orders rus ≡ (ok b, g', out)
      → (vs : List (Option Position)) × (out ≡ outcomes rus vs)
        × ((name : String)
            → Suffices p.requested_resources
                (count name (positions_on vs (units_on rus [])))
                (lookup name p.graph.nodes))
  place-Suffices p orders rus out g' b solvent h =
      let (vs, outs, accounts) = place-Accounts P p orders rus out g' b h in
      let after : IsSolvent P g' =
        subst (IsSolvent P) (ap (λ x. x.1) h)
          (place-IsSolvent P p orders rus solvent (ap (λ x. x.0) h)) in
      (
        vs,
        outs,
        λ name.
            spent-Suffices p.requested_resources g' name
              (count name (positions_on vs (units_on rus []))) (lookup name p.graph.nodes) after
              (accounts name),
      )
