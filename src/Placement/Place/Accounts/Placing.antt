-- ===== src/Placement/Place/Accounts/Placing.antt =====
-- The accounts of `Place` as a whole (operator/controllers/algorithm/placement.go).
use oai_k8s.Common.{String, ℕ, suc, ◌≡◌, refl, ap, sym, ◌∙◌, Option, List, [], ◌∷◌, Bool}
use oai_k8s.Common.{Result, ok, err, panic, hang, out_of_fuel, with_context, with_context-eq-ok}
use oai_k8s.Common.Contracts.{always, After-always}
use oai_k8s.Common.Dict.{Dict}
use oai_k8s.Extern.{Platform}
use oai_k8s.Api.{ChainPosition}
use oai_k8s.Utils.{Node}
use oai_k8s.Placement.State.{Graph, PlacementBfs, Position, Orders}
use oai_k8s.Placement.Place.{
  allocate_rus_resources, dsg8_of, find_position, settle, place_ru, proceed, place_rus, begin,
  place,
}
use oai_k8s.Placement.Place.Reading.{find_position-Keeps}
use oai_k8s.Placement.Place.Accounts.{
  units_on, position_on, positions_on, outcome, outcomes, Accounts, same_nodes,
  allocate_rus-Accounts, settle-Round, nodes_charged,
}

module _ (P : Platform) where
  open P use {Float, Quantity}

  -- A loop that goes on behind a round, and ends well.
  proceed-eq-ok :
      (next : Graph Float Quantity → Result Bool × Graph Float Quantity × List ChainPosition)
      (rest out : List ChainPosition) (x : Result (Unit {0}) × Graph Float Quantity × ChainPosition)
      (b : Bool) (g' : Graph Float Quantity)
      → proceed P next rest x ≡ (ok b, g', out)
      → (g : Graph Float Quantity) × (ru' : ChainPosition) × (rest' : List ChainPosition) × (x
          ≡ (ok tt, g, ru'))
        × (next g ≡ (ok b, g', rest'))
        × (out ≡ ru' ∷ rest')
  unfolding proceed
  proceed-eq-ok next rest out (ok u, g, ru) b g' h =
      (g, ru, (next g).2, refl, λ i. ((h i).0, (h i).1, (next g).2), sym (ap (λ y. y.2) h))
  proceed-eq-ok next rest out (err e, g, ru) b g' h =
      let bad : ◌≡◌ {A = Result Bool} (err e) (ok b) = ap (λ y. y.0) h in cc
  proceed-eq-ok next rest out (panic, g, ru) b g' h =
      let bad : ◌≡◌ {A = Result Bool} panic (ok b) = ap (λ y. y.0) h in cc
  proceed-eq-ok next rest out (hang, g, ru) b g' h =
      let bad : ◌≡◌ {A = Result Bool} hang (ok b) = ap (λ y. y.0) h in cc
  proceed-eq-ok next rest out (out_of_fuel, g, ru) b g' h =
      let bad : ◌≡◌ {A = Result Bool} out_of_fuel (ok b) = ap (λ y. y.0) h in cc

  begin-eq-ok :
      (next : Graph Float Quantity → Result Bool × Graph Float Quantity × List ChainPosition)
      (rus out : List ChainPosition) (x : Result (Unit {0}) × Graph Float Quantity) (b : Bool)
      (g' : Graph Float Quantity)
      → begin P next rus x ≡ (ok b, g', out)
      → (g : Graph Float Quantity) × (x ≡ (ok tt, g)) × (next g ≡ (ok b, g', out))
  unfolding begin
  begin-eq-ok next rus out (ok u, g) b g' h = (g, refl, h)
  begin-eq-ok next rus out (err e, g) b g' h =
      let bad : ◌≡◌ {A = Result Bool} (err e) (ok b) = ap (λ y. y.0) h in cc
  begin-eq-ok next rus out (panic, g) b g' h =
      let bad : ◌≡◌ {A = Result Bool} panic (ok b) = ap (λ y. y.0) h in cc
  begin-eq-ok next rus out (hang, g) b g' h =
      let bad : ◌≡◌ {A = Result Bool} hang (ok b) = ap (λ y. y.0) h in cc
  begin-eq-ok next rus out (out_of_fuel, g) b g' h =
      let bad : ◌≡◌ {A = Result Bool} out_of_fuel (ok b) = ap (λ y. y.0) h in cc

  module _ (p : PlacementBfs Float Quantity) (orders : Orders) where
    place_rus-Accounts :
        (nodes : Dict (Node Quantity)) (i : ℕ) (rus out : List ChainPosition) (used : List String)
        (g g' : Graph Float Quantity) (b : Bool)
        → place_rus P p orders i rus g ≡ (ok b, g', out)
        → Accounts P p.requested_resources nodes used g
        → (vs : List (Option Position)) × (out ≡ outcomes rus vs)
          × Accounts P p.requested_resources nodes (positions_on vs used) g'
    unfolding place_rus place_ru
    place_rus-Accounts nodes i [] out used g g' b h a = (
      [],
      sym (ap (λ y. y.2) h),
      same_nodes P p.requested_resources nodes used g g' (ap (λ y. y.1.nodes) (sym h)) a,
    )
    place_rus-Accounts nodes i (ru ∷ rest) out used g g' b h a =
        let d = dsg8_of P p in
        let found = find_position P p orders i ru g in
        let (g₁, ru', rest', e, f, k) =
          proceed-eq-ok (place_rus P p orders (suc i) rest) rest out (settle P d ru found) b g' h in
        let kept : found.1.nodes ≡ g.nodes =
          After-always (λ x. x.nodes ≡ g.nodes) found.0 found.1
            ((find_position-Keeps P (always (λ x. x.nodes ≡ g.nodes)) (nodes_charged P g.nodes) p
                orders i ru).at
              g refl) in
        let round =
          settle-Round P d nodes ru ru' used found g₁ e
            (same_nodes P p.requested_resources nodes used g found.1 kept a) in
        let (vs, l, c) =
          place_rus-Accounts nodes (suc i) rest rest' (position_on round.found used) g₁ g' b f
            round.accounts in
        (
          round.found ∷ vs,
          k ∙ ap (λ x. x ∷ rest') round.left ∙ ap (λ xs. outcome ru round.found ∷ xs) l,
          c,
        )

    pub place-Accounts :
        (rus out : List ChainPosition) (g' : Graph Float Quantity) (b : Bool)
        → place P p orders rus ≡ (ok b, g', out)
        → (vs : List (Option Position)) × (out ≡ outcomes rus vs)
          × Accounts P p.requested_resources p.graph.nodes (positions_on vs (units_on rus [])) g'
    unfolding place
    place-Accounts rus out g' b h =
        let allocate = allocate_rus_resources P p.requested_resources rus in
        let (g₁, e, f) =
          begin-eq-ok (place_rus P p orders 0 rus) rus out
            (with_context "validation of RU placement failed" allocate p.graph) b g' h in
        place_rus-Accounts p.graph.nodes 0 rus out (units_on rus []) g₁ g' b f (
          allocate_rus-Accounts P p.requested_resources p.graph.nodes rus [] p.graph g₁
            (with_context-eq-ok "validation of RU placement failed" allocate p.graph e)
            (λ name. refl))
