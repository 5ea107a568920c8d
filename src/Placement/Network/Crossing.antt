-- ===== src/Placement/Network/Crossing.antt =====
-- `validateNetwork` (operator/controllers/algorithm/dsg8.go) on one link, with and without allocation.
use oai_k8s.Common.{String, ◌≡◌, ap, sym, ◌∙◌, ◌≢◌, Option, none, some}
use oai_k8s.Common.{true, false, arith, ◌⊎◌, inl, inr, Option-cases}
use oai_k8s.Common.{ok, >>=-eq-ok, >>=-ok, reads}
use oai_k8s.Common.Dict.{Dict, lookup, lookup-insert_ne}
use oai_k8s.Extern.{Platform, Laws}
use oai_k8s.Api.{NetworkRequirements}
use oai_k8s.Utils.{Node, Link}
use oai_k8s.Utils.Links
use oai_k8s.Placement.State.{Graph}
use oai_k8s.Placement.Network.{Walk, link_to, charge, cross_link, cross}

-- `nodes[u].Links`
abbrev pub links_at : {Quantity : Type 0} → String → Dict (Node Quantity) → Option (Dict String)
links_at u nodes = elim (lookup u nodes) [ none ↦ none | some node ↦ some node.links ]

pub links_at_of_lookup :
    {Quantity : Type 0} (u : String) (nodes : Dict (Node Quantity)) (node : Node Quantity)
    → lookup u nodes ≡ some node
    → links_at u nodes ≡ some node.links
links_at_of_lookup u nodes node e = rw (e, links_at)

pub links_at_of_none :
    {Quantity : Type 0} (u : String) (nodes : Dict (Node Quantity))
    → lookup u nodes ≡ none
    → links_at u nodes ≡ none
links_at_of_none u nodes e = rw (e, links_at)

-- Two graphs with the same nodes and links between them; what the nodes have left may differ.
abbrev pub SameLinks : {Quantity : Type 0} → Dict (Node Quantity) → Dict (Node Quantity) → Type 0
SameLinks nodes nodes' = (u : String) → links_at u nodes' ≡ links_at u nodes

module _ {Quantity : Type 0} (nodes : Dict (Node Quantity)) where
  -- `nodes[u].Links[v]` is the link `l`.
  abbrev pub Points : String → String → String → Type 0
  Points u v l = (links : Dict String) × (links_at u nodes ≡ some links) × (lookup v links ≡ some l)

  -- A link joins two nodes, and no others.
  abbrev pub UniquePointers : Type 0
  UniquePointers =
      (u v u' v' l : String)
      → Points u v l
      → Points u' v' l
      → (u ≡ u') × (v ≡ v') ⊎ (u ≡ v') × (v ≡ u')

module _ (P : Platform) where
  open P use {Float, Quantity}

  pub record Crossed (w : Walk P) (u v : String) (g : Graph Float Quantity) (w' : Walk P)
      : Type 0 where
    pub pointer : String
    pub link : Link Float
    pub requirement : NetworkRequirements Float
    pub linked : link_to P g u v ≡ ok (pointer, link)
    pub required : w.requirement ≡ some requirement
    pub room : Links.has_bandwidth P link requirement.bandwidth ≡ true
    pub moved : w' ≡ record w { total_latency = P.add_float w.total_latency link.latency }

  cross_link-check :
      (w w' : Walk P) (l : String) (link : Link Float) (g g' : Graph Float Quantity)
      → cross_link P false w (l, link) g ≡ (ok (some w'), g')
      → (r : NetworkRequirements Float) × (w.requirement ≡ some r)
        × (Links.has_bandwidth P link r.bandwidth ≡ true)
        × (w' ≡ record w { total_latency = P.add_float w.total_latency link.latency })
        × (g' ≡ g)
  unfolding cross_link
  cross_link-check w w' l link g g' h = elim (Option-cases w.requirement) [
    | inl n ↦ let bad = rw (n, cross_link) at h in cc
    | inr (r, e) ↦
        let h' = rw (e, cross_link) at h in (r, e, ground arith, ground arith, ground arith)
  ]

  pub cross-check :
      (w w' : Walk P) (u v : String) (g g' : Graph Float Quantity)
      → cross P false w u v g ≡ (ok (some w'), g')
      → Crossed w u v g w' × (g' ≡ g)
  unfolding cross
  cross-check w w' u v g g' h =
      let ((l, link), g₁, e₁, h₁) =
        >>=-eq-ok (reads (λ g. link_to P g u v)) (cross_link P false w) g h in
      let (r, required, room, moved, same) = cross_link-check w w' l link g₁ g' h₁ in
      (
        record {
          pointer = l;
          link = link;
          requirement = r;
          linked = ap (λ x. x.0) e₁;
          required = required;
          room = room;
          moved = moved;
        },
        same ∙ sym (ap (λ x. x.1) e₁),
      )

  pub link_to-Points :
      (g : Graph Float Quantity) (u v l : String) (link : Link Float)
      → link_to P g u v ≡ ok (l, link)
      → Points g.nodes u v l × (lookup l g.links ≡ some link)
  unfolding link_to
  link_to-Points g u v l link h = elim (Option-cases (lookup u g.nodes)) [
    | inl n ↦ let bad = rw (n, link_to) at h in cc
    | inr (node, e) ↦ elim (Option-cases (lookup v node.links)) [
      | inl n ↦ let bad = rw (e, n, link_to) at h in cc
      | inr (m, f) ↦ elim (Option-cases (lookup m g.links)) [
        | inl n ↦ let bad = rw (e, f, n, link_to) at h in cc
        | inr (k, x) ↦
            let good = rw (e, f, x, link_to) at h in
            ((node.links, links_at_of_lookup u g.nodes node e, cc), cc)
      ]
    ]
  ]

  -- Where the check passes, the allocation of the same link succeeds and changes that link only.
  pub record Taken (w : Walk P) (u v pointer : String) (g : Graph Float Quantity) (w' : Walk P)
      : Type 0 where
    pub taken : (cross P true w u v g).0 ≡ ok (some w')
    pub nodes_kept : (cross P true w u v g).1.nodes ≡ g.nodes
    pub others_kept :
        (l : String) → l ≢ pointer → lookup l (cross P true w u v g).1.links ≡ lookup l g.links

  -- `cross` with the link found and the requirement known.
  cross-charge :
      (w : Walk P) (u v l : String) (link : Link Float) (r : NetworkRequirements Float)
      (g : Graph Float Quantity)
      → link_to P g u v ≡ ok (l, link)
      → w.requirement ≡ some r
      → cross P true w u v g
        ≡ charge P l link r
            (record w { total_latency = P.add_float w.total_latency link.latency })
            g
  unfolding cross cross_link
  cross-charge w u v l link r g found required =
      >>=-ok (reads (λ g. link_to P g u v)) (cross_link P true w) g (ap (λ x. (x, g)) found)
      ∙ rw (required, cross_link)

  pub cross-Taken :
      Laws P
      → (w w' : Walk P) (u v : String) (g g₁ : Graph Float Quantity) (c : Crossed w u v g w')
      → link_to P g₁ u v ≡ link_to P g u v
      → Taken w u v c.pointer g₁ w'
  unfolding charge
  cross-Taken L w w' u v g g₁ c same =
      let crossed =
        cross-charge w u v c.pointer c.link c.requirement g₁ (same ∙ c.linked) c.required in
      let granted =
        Links.allocate_resources-has_bandwidth P L c.link c.requirement.bandwidth c.room in
      record {
        taken = rw crossed (rw (granted, c.moved));
        nodes_kept = rw crossed;
        others_kept = λ l ne. rw crossed (lookup-insert_ne l c.pointer _ g₁.links ne);
      }
