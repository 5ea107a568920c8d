-- ===== src/Placement/Place/Solvent.antt =====
-- No placement takes more than there is.
use oai_k8s.Common.{
  String, ◌≡◌, sym, ◌∙◌, subst, some, List, Bool, false, ◌||◌, arith, str_dec, Bool-cases, inl, inr,
  Option-cases,
}
use oai_k8s.Common.{ok}
use oai_k8s.Common.Contracts.{Contract, on_success, After, Keeps}
use oai_k8s.Common.Int.{pos, ltb_ℤ}
use oai_k8s.Common.Dict.{Dict, insert, lookup, lookup-insert_self, lookup-insert_ne}
use oai_k8s.Extern.{Platform}
use oai_k8s.Api.{ChainPosition, NetworkRequirements}
use oai_k8s.Utils.{Node, Link, RequestedResources}
use oai_k8s.Utils.Links
use oai_k8s.Utils.Nodes
use oai_k8s.Placement.State.{Graph, PlacementBfs, Orders}
use oai_k8s.Placement.Network.{Walk, charge}
use oai_k8s.Placement.Place.{allocate_node, place}
use oai_k8s.Placement.Place.Contracts.{place-Keeps}

module _ (P : Platform) where
  open P use {Float, Quantity, lt_float, zero_float, value}

  abbrev pub HasLeft : Node Quantity → Type 0
  HasLeft node =
      (ltb_ℤ (value node.resources.memory_available) (pos 0) ≡ false)
      × (ltb_ℤ (value node.resources.cpu_available) (pos 0) ≡ false)

  -- No node and no link has less than nothing left.
  pub record IsSolvent (g : Graph Float Quantity) : Type 0 where
    pub nodes_left :
        (name : String) (node : Node Quantity) → lookup name g.nodes ≡ some node → HasLeft node
    pub links_left :
        (l : String) (link : Link Float)
        → lookup l g.links ≡ some link
        → lt_float link.available_bandwidth zero_float ≡ false

  -- A write of a value that satisfies a condition, in a map whose values satisfy it.
  all_insert :
      {V : Type 0} (Q : V → Type 0) (d : Dict V) (k : String) (v : V)
      → ((j : String) (w : V) → lookup j d ≡ some w → Q w)
      → Q v
      → (j : String) (w : V) → lookup j (insert k v d) ≡ some w
      → Q w
  all_insert Q d k v h q j w e = elim (str_dec j k) [
    | yes x ↦
        let f : some v ≡ some w =
          sym (lookup-insert_self k v d) ∙ subst (λ z. lookup z (insert k v d) ≡ some w) x e in
        subst Q (let s : v ≡ w = cc in s) q
    | no n ↦ h j w (sym (lookup-insert_ne j k v d n) ∙ e)
  ]

  solvent : Contract (Graph Float Quantity)
  solvent = on_success IsSolvent

  charged :
      (l : String) (link : Link Float) (r : NetworkRequirements Float) (w : Walk P)
      (g : Graph Float Quantity)
      → lookup l g.links ≡ some link
      → IsSolvent g
      → After solvent (charge P l link r w g).0 (charge P l link r w g).1
  unfolding charge Links.allocate_resources solvent
  charged l link r w g e h =
      let left = P.sub_float link.available_bandwidth r.bandwidth in
      elim (Bool-cases (lt_float left zero_float)) [
        | inl t ↦ rw t tt
        | inr f ↦ rw f (record {
          nodes_left = h.nodes_left;
          links_left =
              all_insert (λ (v : Link Float). lt_float v.available_bandwidth zero_float ≡ false)
                g.links l (record link { available_bandwidth = left }) h.links_left f;
        })
      ]

  allocated :
      (requested : RequestedResources Quantity) (name : String)
      → Keeps solvent (allocate_node P requested name)
  unfolding allocate_node Nodes.allocate_resources solvent
  allocated requested name = record {
    at = λ g h. elim (Option-cases (lookup name g.nodes)) [
      | inl n ↦ rw (n, allocate_node) tt
      | inr (node, e) ↦
          let m = P.sub_quantity node.resources.memory_available requested.memory in
          let c = P.sub_quantity node.resources.cpu_available requested.cpu in
          elim (Bool-cases (ltb_ℤ (value c) (pos 0) || ltb_ℤ (value m) (pos 0))) [
            | inl t ↦ rw (e, t, allocate_node) tt
            | inr f ↦
                rw (e, f, allocate_node)
                  (record {
                    nodes_left =
                        all_insert HasLeft g.nodes name
                          (record node {
                            resources = record (node.resources) {
                              memory_available = m;
                              cpu_available = c;
                            };
                          })
                          h.nodes_left (ground (arith, f));
                    links_left = h.links_left;
                  })
          ]
    ];
  }

  -- When `Place` succeeds on a graph in which no node and no link has less than nothing left, then none has
  -- afterwards.
  pub place-IsSolvent :
      (p : PlacementBfs Float Quantity) (orders : Orders) (rus : List ChainPosition) {b : Bool}
      → IsSolvent p.graph
      → (place P p orders rus).0 ≡ ok b
      → IsSolvent (place P p orders rus).1
  unfolding solvent
  place-IsSolvent p orders rus h e =
      let kept =
        place-Keeps P solvent (record { charged = charged; allocated = allocated }) p orders rus
          h in
      subst (λ r. After solvent r (place P p orders rus).1) e kept
