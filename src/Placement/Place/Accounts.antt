-- ===== src/Placement/Place/Accounts.antt =====
-- What `Place` takes of the nodes (operator/controllers/algorithm/placement.go, dsg8.go): of each node the request as often as a
-- unit, a CU or a DU was put there. Placing is about the whole of `Place`.
pub mod Placing
use oai_k8s.Common.{
  String, ℕ, zero, suc, ◌≡◌, ◌≢◌, refl, ap, sym, ◌∙◌, subst, Option, none, some, List, [], ◌∷◌,
  Bool, true, ◌==◌, if◌then◌else◌, arith, str_dec, Option-cases, inl, inr,
}
use oai_k8s.Common.{
  Result, ok, err, panic, hang, out_of_fuel, with_context, with_context-eq-ok, ◌>>=◌, ◌>>◌,
  >>=-eq-ok, lift, wrap_nil,
}
use oai_k8s.Common.Contracts.{always, always-After, After-always}
use oai_k8s.Common.Dict.{Dict, insert, lookup, lookup-insert_self, lookup-insert_ne}
use oai_k8s.Extern.{Platform}
use oai_k8s.Api.{ChainPosition}
use oai_k8s.Utils.{Node, RequestedResources}
use oai_k8s.Utils.Nodes
use oai_k8s.Placement.State.{Graph, PlacementBfs, Position, Orders}
use oai_k8s.Placement.Dsg8.{Disaggregation8}
use oai_k8s.Placement.Network.{charge, validate_network}
use oai_k8s.Placement.Place.{
  allocate_node, allocate_resources, allocate_rus_resources, fulfill_ru, dsg8_of, find_position,
  settle, place_ru, proceed, place_rus, begin, place,
}
use oai_k8s.Placement.Place.Reading.{Charges, validate_network-Keeps, find_position-Keeps}

-- How often a name is in a list.
abbrev pub count : String → List String → ℕ
count name [] = 0
count name (n ∷ rest) = if name == n then suc (count name rest) else count name rest

count_self :
    (n name : String) (used : List String) → n ≡ name → count n (name ∷ used) ≡ suc (count n used)
count_self n name used e = ground (arith, e)

count_ne : (n name : String) (used : List String) → n ≢ name → count n (name ∷ used) ≡ count n used
count_ne n name used m = ground (arith, m)

-- The nodes that the units themselves are put on, before those of a list.
abbrev pub units_on : List ChainPosition → List String → List String
units_on [] used = used
units_on (ru ∷ rest) used = units_on rest (ru.ru_node ∷ used)

-- The nodes of the DU and the CU of a position, if there is one, and of all positions.
abbrev pub position_on : Option Position → List String → List String
position_on none used = used
position_on (some v) used = v.cu_node_name ∷ v.du_node_name ∷ used

abbrev pub positions_on : List (Option Position) → List String → List String
positions_on [] used = used
positions_on (v ∷ rest) used = positions_on rest (position_on v used)

-- A unit as it was, or fulfilled with its position.
abbrev pub outcome : ChainPosition → Option Position → ChainPosition
outcome ru none = ru
outcome ru (some v) = fulfill_ru ru v

abbrev pub outcomes : List ChainPosition → List (Option Position) → List ChainPosition
outcomes [] vs = []
outcomes (ru ∷ rest) [] = ru ∷ rest
outcomes (ru ∷ rest) (v ∷ vs) = outcome ru v ∷ outcomes rest vs

module _ (P : Platform) where
  open P use {Float, Quantity}

  -- A node of which the request was taken a number of times.
  abbrev pub spent :
      RequestedResources Quantity → ℕ → Option (Node Quantity) → Option (Node Quantity)
  spent requested zero o = o
  spent requested (suc k) o = elim (spent requested k o) [
    | none ↦ none
    | some node ↦ some (Nodes.allocate_resources P node requested.memory requested.cpu).1
  ]

  -- Of each node the request was taken as often as it was used.
  abbrev pub Accounts :
      RequestedResources Quantity
      → Dict (Node Quantity)
      → List String
      → Graph Float Quantity
      → Type 0
  Accounts requested nodes used g =
      (name : String) → lookup name g.nodes ≡ spent requested (count name used) (lookup name nodes)

  pub nodes_charged : (nodes : Dict (Node Quantity)) → Charges P (always (λ g. g.nodes ≡ nodes))
  unfolding charge
  nodes_charged nodes l link r w g e h =
      always-After (λ g. g.nodes ≡ nodes) (charge P l link r w g).0 (charge P l link r w g).1 h

  pub spent_step :
      (requested : RequestedResources Quantity) (k : ℕ) (o : Option (Node Quantity))
      (node : Node Quantity)
      → spent requested k o ≡ some node
      → spent requested (suc k) o
        ≡ some (Nodes.allocate_resources P node requested.memory requested.cpu).1
  spent_step requested k o node e = rw e refl

  module _ (requested : RequestedResources Quantity) (nodes : Dict (Node Quantity)) where
    pub same_nodes :
        (used : List String) (g g' : Graph Float Quantity)
        → g'.nodes ≡ g.nodes
        → Accounts requested nodes used g
        → Accounts requested nodes used g'
    same_nodes used g g' e a name = ap (lookup name) e ∙ a name

    allocate_node-Accounts :
        (name : String) (used : List String) (g g' : Graph Float Quantity)
        → allocate_node P requested name g ≡ (ok tt, g')
        → Accounts requested nodes used g
        → Accounts requested nodes (name ∷ used) g'
    unfolding allocate_node
    allocate_node-Accounts name used g g' h a n = elim (Option-cases (lookup name g.nodes)) [
      | inl gone ↦
          let bad : ◌≡◌ {A = Result (Unit {0})} panic (ok tt) =
            ap (λ x. x.0) (rw (gone, allocate_node) at h) in
          cc
      | inr (node, there) ↦
          let node' = (Nodes.allocate_resources P node requested.memory requested.cpu).1 in
          let after : insert name node' g.nodes ≡ g'.nodes =
            ap (λ x. x.1.nodes) (rw (there, allocate_node) at h) in
          elim (str_dec n name) [
            | yes e ↦
                ap (lookup n) (sym after)
                ∙ subst (λ z. lookup z (insert name node' g.nodes) ≡ some node') (sym e)
                    (lookup-insert_self name node' g.nodes)
                ∙ sym (
                    ap (λ k. spent requested k (lookup n nodes)) (count_self n name used e)
                    ∙ spent_step requested (count n used) (lookup n nodes) node
                        (sym (a n) ∙ subst (λ z. lookup z g.nodes ≡ some node) (sym e) there))
            | no m ↦
                ap (lookup n) (sym after)
                ∙ lookup-insert_ne n name node' g.nodes m
                ∙ a n
                ∙ ap (λ k. spent requested k (lookup n nodes)) (sym (count_ne n name used m))
          ]
    ]

    pub allocate_rus-Accounts :
        (rus : List ChainPosition) (used : List String) (g g' : Graph Float Quantity)
        → allocate_rus_resources P requested rus g ≡ (ok tt, g')
        → Accounts requested nodes used g
        → Accounts requested nodes (units_on rus used) g'
    unfolding allocate_rus_resources
    allocate_rus-Accounts [] used g g' h a = same_nodes used g g' (ap (λ x. x.1.nodes) (sym h)) a
    allocate_rus-Accounts (ru ∷ rest) used g g' h a =
        let one = allocate_node P requested ru.ru_node in
        let (u, g₁, e, f) =
          >>=-eq-ok (with_context _ one) (λ _. allocate_rus_resources P requested rest) g h in
        allocate_rus-Accounts rest (ru.ru_node ∷ used) g₁ g' f
          (allocate_node-Accounts ru.ru_node used g g₁ (with_context-eq-ok _ one g e) a)

  module _ (d : Disaggregation8 Float Quantity) (nodes : Dict (Node Quantity)) where
    allocate_resources-Accounts :
        (ru : ChainPosition) (used : List String) (g g' : Graph Float Quantity)
        → allocate_resources P d ru g ≡ (ok tt, g')
        → Accounts d.requested_resources nodes used g
        → Accounts d.requested_resources nodes (ru.cu_node ∷ ru.du_node ∷ used) g'
    unfolding allocate_resources
    allocate_resources-Accounts ru used g g' h a =
        let requested = d.requested_resources in
        let du = allocate_node P requested ru.du_node in
        let cu = allocate_node P requested ru.cu_node in
        let network =
          validate_network P d.network_requirements ru.path ru.cu_node ru.du_node true in
        let checked = λ (success : Bool).
          lift {S = Graph Float Quantity}
            (if success then ok tt else err (wrap_nil "error allocating network resources")) in
        let last = with_context "error allocating network resources" network >>= checked in
        let (u, g₁, e₁, f₁) =
          >>=-eq-ok (with_context "error allocating du resources" du)
            (λ _. with_context "error allocating cu resources" cu >> last) g h in
        let (v, g₂, e₂, f₂) =
          >>=-eq-ok (with_context "error allocating cu resources" cu) (λ _. last) g₁ f₁ in
        let (b, g₃, e₃, f₃) =
          >>=-eq-ok (with_context "error allocating network resources" network) checked g₂ f₂ in
        let through = with_context-eq-ok "error allocating network resources" network g₂ e₃ in
        let kept : g₃.nodes ≡ g₂.nodes =
          ap (λ x. x.1.nodes) (sym through)
          ∙ After-always (λ g. g.nodes ≡ g₂.nodes) (network g₂).0 (network g₂).1
              ((validate_network-Keeps P (always (λ g. g.nodes ≡ g₂.nodes)) (nodes_charged g₂.nodes)
                  d.network_requirements ru.path ru.cu_node ru.du_node true).at
                g₂ refl) in
        same_nodes requested nodes (ru.cu_node ∷ ru.du_node ∷ used) g₂ g'
          (ap (λ x. x.1.nodes) (sym f₃) ∙ kept)
          (allocate_node-Accounts requested nodes ru.cu_node (ru.du_node ∷ used) g₁ g₂
            (with_context-eq-ok "error allocating cu resources" cu g₁ e₂)
            (allocate_node-Accounts requested nodes ru.du_node used g g₁
              (with_context-eq-ok "error allocating du resources" du g e₁) a))

    -- One round: what it made of the unit, and what it took.
    pub record Round (ru ru' : ChainPosition) (used : List String) (g' : Graph Float Quantity)
        : Type 0 where
      pub found : Option Position
      pub left : ru' ≡ outcome ru found
      pub accounts : Accounts d.requested_resources nodes (position_on found used) g'

    pub settle-Round :
        (ru ru' : ChainPosition) (used : List String)
        (x : Result (Option Position) × Graph Float Quantity) (g' : Graph Float Quantity)
        → settle P d ru x ≡ (ok tt, g', ru')
        → Accounts d.requested_resources nodes used x.1
        → Round ru ru' used g'
    unfolding settle
    settle-Round ru ru' used (ok none, g) g' h a = record {
      found = none;
      left = sym (ap (λ y. y.2) h);
      accounts = same_nodes d.requested_resources nodes used g g' (ap (λ y. y.1.nodes) (sym h)) a;
    }
    settle-Round ru ru' used (ok (some v), g) g' h a =
        let call = allocate_resources P d (fulfill_ru ru v) in
        record {
          found = some v;
          left = sym (ap (λ y. y.2) h);
          accounts =
              allocate_resources-Accounts (fulfill_ru ru v) used g g'
                (with_context-eq-ok "error updating resources" call g (ap (λ y. (y.0, y.1)) h)) a;
        }
    settle-Round ru ru' used (err e, g) g' h a =
        let bad : ◌≡◌ {A = Result (Unit {0})} (err e) (ok tt) = ap (λ y. y.0) h in cc
    settle-Round ru ru' used (panic, g) g' h a =
        let bad : ◌≡◌ {A = Result (Unit {0})} panic (ok tt) = ap (λ y. y.0) h in cc
    settle-Round ru ru' used (hang, g) g' h a =
        let bad : ◌≡◌ {A = Result (Unit {0})} hang (ok tt) = ap (λ y. y.0) h in cc
    settle-Round ru ru' used (out_of_fuel, g) g' h a =
        let bad : ◌≡◌ {A = Result (Unit {0})} out_of_fuel (ok tt) = ap (λ y. y.0) h in cc
