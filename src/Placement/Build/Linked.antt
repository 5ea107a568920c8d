-- ===== src/Placement/Build/Linked.antt =====
-- The second loop of `NewPlacementBFS`, against the links of the topology.
use oai_k8s.Common.{String, ◌≡◌, Option, none, some, refl, ap, sym, subst, [], ◌∷◌}
use oai_k8s.Common.{Memᴰ, ◌⊎◌, ⊎_elim, inl, inr, ◌↔◌}
use oai_k8s.Common.{ok, and_then, and_then-eq-ok}
use oai_k8s.Common.Dict.{Dict, insert}
use mathlib.Core.List.Memᴰ
use oai_k8s.Api.{TopologyLink}
use oai_k8s.Utils.{Node, Link}
use oai_k8s.Placement.State.{Graph}
use oai_k8s.Placement.Build.{connect, build_links}
use oai_k8s.Placement.Paths.Walks.{Edge}
use oai_k8s.Placement.Network.Crossing.{Points}
use oai_k8s.Placement.Build.Edges.{Known, Connects, connect-Connects}

module _ {Float : Type 0} where
  -- The link has the ends `u` and `v`.
  abbrev pub Touches : TopologyLink Float → String → String → Type 0
  Touches link u v =
      (u ≡ link.source.node) × (v ≡ link.destination.node)
      ⊎ (u ≡ link.destination.node) × (v ≡ link.source.node)

  -- The link of that name joins `u` and `v`.
  abbrev pub JoinsBy : Dict (Option (TopologyLink Float)) → String → String → String → Type 0
  JoinsBy links name u v =
      (link : TopologyLink Float) × Memᴰ (name, some link) links × Touches link u v

  -- A link of the topology between `u` and `v`, in either direction.
  abbrev pub Joins : Dict (Option (TopologyLink Float)) → String → String → Type 0
  Joins links u v = (name : String) × JoinsBy links name u v

  pub Joins-swap :
      (links : Dict (Option (TopologyLink Float))) (u v : String)
      → Joins links u v
      → Joins links v u
  Joins-swap links u v (name, (link, m, j)) =
      (name, (link, m, ⊎_elim (λ (a, b). inr (b, a)) (λ (a, b). inl (b, a)) j))

  Joins-cons :
      (name : String) (link : TopologyLink Float) (rest : Dict (Option (TopologyLink Float)))
      (u v : String)
      → Joins ((name, some link) ∷ rest) u v ↔ (Touches link u v ⊎ Joins rest u v)
  Joins-cons name link rest u v = (
    λ (n, (l, m, j)).
        ⊎_elim
          (λ e. inl (
            let f : some l ≡ some link = ap (λ x. x.1) e in
            let same : l ≡ link = cc in subst (λ z. Touches z u v) same j))
          (λ t. inr (n, (l, t, j))) (Memᴰ.cases_cons m),
    ⊎_elim (λ j. (name, (link, Memᴰ.head refl, j))) (λ (n, (l, m, j)). (n, (l, Memᴰ.tail m, j))),
  )

module _ {Float Quantity : Type 0} where
  -- What the second loop leaves.
  pub record Linked (links : Dict (Option (TopologyLink Float)))
      (nodes nodes' : Dict (Node Quantity)) : Type 0 where
    pub known : (u : String) → Known nodes' u ↔ Known nodes u
    pub edges : (u v : String) → Edge nodes' u v ↔ (Edge nodes u v ⊎ Joins links u v)
    pub ends : (u v : String) → Joins links u v → Known nodes u
    pub pointers : (u v l : String) → Points nodes' u v l → Points nodes u v l ⊎ JoinsBy links l u v

  Linked-nil : (nodes : Dict (Node Quantity)) → Linked [] nodes nodes
  Linked-nil nodes = record {
    known = λ u. (λ x. x, λ x. x);
    edges = λ u v. (inl, ⊎_elim (λ x. x) (λ (n, (l, m, j)). absurd (Memᴰ.not-nil m)));
    ends = λ u v (n, (l, m, j)). absurd (Memᴰ.not-nil m);
    pointers = λ u v l x. inl x;
  }

  -- A link in both directions, and then the rest.
  Linked-cons :
      (name : String) (link : TopologyLink Float) (rest : Dict (Option (TopologyLink Float)))
      (nodes nodes₁ nodes₂ nodes' : Dict (Node Quantity))
      → Connects nodes link.source.node link.destination.node name nodes₁
      → Connects nodes₁ link.destination.node link.source.node name nodes₂
      → Linked rest nodes₂ nodes'
      → Linked ((name, some link) ∷ rest) nodes nodes'
  Linked-cons name link rest nodes nodes₁ nodes₂ nodes' c₁ c₂ t = record {
    known = λ u. (
      λ x. (c₁.known u).0 ((c₂.known u).0 ((t.known u).0 x)),
      λ x. (t.known u).1 ((c₂.known u).1 ((c₁.known u).1 x)),
    );
    edges = λ u v.
        let j = Joins-cons name link rest u v in
        (
          λ x.
              ⊎_elim
                (λ y.
                  ⊎_elim (λ z. ⊎_elim inl (λ k. inr (j.1 (inl (inl k)))) ((c₁.edges u v).0 z))
                    (λ k. inr (j.1 (inl (inr k)))) ((c₂.edges u v).0 y))
                (λ y. inr (j.1 (inr y))) ((t.edges u v).0 x),
          ⊎_elim (λ x. (t.edges u v).1 (inl ((c₂.edges u v).1 (inl ((c₁.edges u v).1 (inl x))))))
              (λ x.
                ⊎_elim
                  (⊎_elim
                    (λ k. (t.edges u v).1 (inl ((c₂.edges u v).1 (inl ((c₁.edges u v).1 (inr k))))))
                    (λ k. (t.edges u v).1 (inl ((c₂.edges u v).1 (inr k)))))
                  (λ y. (t.edges u v).1 (inr y)) (j.0 x)),
        );
    ends = λ u v x.
        ⊎_elim
          (⊎_elim (λ (e, _). subst (Known nodes) (sym e) c₁.first)
            (λ (e, _). subst (Known nodes) (sym e) ((c₁.known _).0 c₂.first)))
          (λ y. (c₁.known u).0 ((c₂.known u).0 (t.ends u v y)))
          ((Joins-cons name link rest u v).0 x);
    pointers = λ u v l x.
        let this = λ (e : l ≡ name) (j : Touches link u v).
          let m : Memᴰ (l, some link) ((name, some link) ∷ rest) =
            Memᴰ.head (ap (λ z. (z, some link)) e) in
          let out : JoinsBy ((name, some link) ∷ rest) l u v = (link, m, j) in out in
        ⊎_elim
          (λ y.
            ⊎_elim (λ z. ⊎_elim inl (λ (e, f, n). inr (this n (inl (e, f)))) (c₁.pointers u v l z))
              (λ (e, f, n). inr (this n (inr (e, f)))) (c₂.pointers u v l y))
          (λ (k, m, j). inr (k, Memᴰ.tail m, j)) (t.pointers u v l x);
  }

  pub build_links-Linked :
      (links : Dict (Option (TopologyLink Float))) (g g' : Graph Float Quantity)
      → build_links links g ≡ ok g'
      → Linked links g.nodes g'.nodes
  unfolding build_links
  build_links-Linked [] g g' h =
      subst (λ x. Linked [] g.nodes x) (let e : g ≡ g' = cc in ap (λ x. x.nodes) e)
        (Linked-nil g.nodes)
  build_links-Linked ((name, none) ∷ rest) g g' h = cc
  build_links-Linked ((name, some link) ∷ rest) g g' h =
      let v : Link Float = record {
        link_name = name;
        available_bandwidth = link.link_capacity;
        latency = link.link_delay;
      } in
      let last = λ (nodes'' : Dict (Node Quantity)).
        build_links rest (record { nodes = nodes''; links = insert name v g.links }) in
      let (nodes₁, e₁, h₁) =
        and_then-eq-ok (connect link.source.node link.destination.node name g.nodes)
          (λ nodes'. and_then (connect link.destination.node link.source.node name nodes') last)
          h in
      let (nodes₂, e₂, h₂) =
        and_then-eq-ok (connect link.destination.node link.source.node name nodes₁) last h₁ in
      Linked-cons name link rest g.nodes nodes₁ nodes₂ g'.nodes
        (connect-Connects link.source.node link.destination.node name g.nodes nodes₁ e₁)
        (connect-Connects link.destination.node link.source.node name nodes₁ nodes₂ e₂)
        (build_links-Linked rest _ g' h₂)
