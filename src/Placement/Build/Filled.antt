-- ===== src/Placement/Build/Filled.antt =====
-- The first loop of `NewPlacementBFS`, against the nodes of the topology.
use oai_k8s.Common.{
  String, ◌≡◌, refl, ap, sym, ◌∙◌, subst, Option, none, some, Option-cases, [], ◌∷◌,
}
use oai_k8s.Common.{true, Memᴰ, ◌⊎◌, ⊎_elim, inl, inr, Bool-cases, str_dec, if◌then◌else◌}
use oai_k8s.Common.{ok, and_then-eq-ok, deref}
use oai_k8s.Common.Dict.{Dict, insert, lookup, keys, lookup-insert_self, lookup-insert_ne}
use mathlib.Core.List.Memᴰ
use oai_k8s.Api.{TopologyNode}
use oai_k8s.Utils.{Node}
use oai_k8s.Utils.NodeList.{K8sNode, NodeMap, get}
use oai_k8s.Placement.Build.{build_nodes, resources_of}
use oai_k8s.Placement.Build.Edges.{Known}
use oai_k8s.Placement.Paths.Walks.{Edge}

-- Some node of the topology is the core.
abbrev pub HasCore : Dict (Option TopologyNode) → Type 0
HasCore nodes =
    (name : String) × (node : TopologyNode) × Memᴰ (name, some node) nodes × (node.core ≡ true)

module _ {Quantity : Type 0} where
  -- What the first loop leaves.
  pub record Filled (ts : Dict (Option TopologyNode)) (core core' : String)
      (nodes nodes' : Dict (Node Quantity)) : Type 0 where
    pub kept : (u : String) → Known nodes u → Known nodes' u
    pub added : (u : String) → Memᴰ u (keys ts) → Known nodes' u
    pub bare : ((u v : String) → ¬ Edge nodes u v) → (u v : String) → ¬ Edge nodes' u v
    pub core_known : (core' ≡ core) ⊎ Memᴰ core' (keys ts)
    pub core_found : HasCore ts → Memᴰ core' (keys ts)

  Filled-nil : (core : String) (nodes : Dict (Node Quantity)) → Filled [] core core nodes nodes
  Filled-nil core nodes = record {
    kept = λ u k. k;
    added = λ u m. absurd (Memᴰ.not-nil m);
    bare = λ b. b;
    core_known = inl refl;
    core_found = λ (n, t, m, c). absurd (Memᴰ.not-nil m);
  }

  module _ (name : String) (t : TopologyNode) (rest : Dict (Option TopologyNode))
      (core core' : String) (nodes nodes' : Dict (Node Quantity)) (node : Node Quantity)
      (no_links : node.links ≡ []) where
    kept_write : (u : String) → Known nodes u → Known (insert name node nodes) u
    kept_write u (m, e) = elim (str_dec u name) [
      | yes x ↦ (node, rw x (lookup-insert_self name node nodes))
      | no n ↦ (m, lookup-insert_ne u name node nodes n ∙ e)
    ]

    bare_write :
        ((u v : String) → ¬ Edge nodes u v) → (u v : String) → ¬ Edge (insert name node nodes) u v
    bare_write b u v (m, e, k) = elim (str_dec u name) [
      | yes x ↦
          let y =
            sym e
            ∙ subst (λ z. lookup z (insert name node nodes) ≡ some node) (sym x)
                (lookup-insert_self name node nodes) in
          let same : m ≡ node = cc in
          Memᴰ.not-nil (subst (λ z. Memᴰ v (keys z)) (ap (λ z. z.links) same ∙ no_links) k)
      | no n ↦ b u v (m, sym (lookup-insert_ne u name node nodes n) ∙ e, k)
    ]

    Filled-cons :
        Filled rest (if t.core then name else core) core' (insert name node nodes) nodes'
        → Filled ((name, some t) ∷ rest) core core' nodes nodes'
    Filled-cons f = record {
      kept = λ u k. f.kept u (kept_write u k);
      added = λ u m.
          ⊎_elim (λ e. f.kept u (node, rw e (lookup-insert_self name node nodes)))
            (λ x. f.added u x) (Memᴰ.cases_cons m);
      bare = λ b. f.bare (bare_write b);
      core_known =
          ⊎_elim
            (λ e. elim (Bool-cases t.core) [
              | inl c ↦ inr (Memᴰ.head (let x : core' ≡ name = rw c at e in x))
              | inr c ↦ inl (rw c at e)
            ])
            (λ m. inr (Memᴰ.tail m)) f.core_known;
      core_found = λ (n, x, m, c).
          ⊎_elim
            (λ e.
              ⊎_elim
                (λ y. Memᴰ.head (
                  let f : some x ≡ some t = ap (λ z. z.1) e in
                  let same : x ≡ t = cc in
                  let d : t.core ≡ true = ap (λ z. z.core) (sym same) ∙ c in
                  let z : core' ≡ name = rw d at y in z))
                (λ y. Memᴰ.tail y) f.core_known)
            (λ y. Memᴰ.tail (f.core_found (n, x, y, c))) (Memᴰ.cases_cons m);
    }

  pub build_nodes-Filled :
      (m : NodeMap Quantity) (ts : Dict (Option TopologyNode)) (core core' : String)
      (nodes nodes' : Dict (Node Quantity))
      → build_nodes m ts (core, nodes) ≡ ok (core', nodes')
      → Filled ts core core' nodes nodes'
  unfolding build_nodes
  build_nodes-Filled m [] core core' nodes nodes' h =
      let e : ◌≡◌ {A = String × Dict (Node Quantity)} (core, nodes) (core', nodes') = cc in
      subst (λ z. Filled [] core z.0 nodes z.1) e (Filled-nil core nodes)
  build_nodes-Filled m ((name, none) ∷ rest) core core' nodes nodes' h =
      elim (Option-cases (get m name)) [
        | inl n ↦ let bad = rw (n, build_nodes) at h in cc
        | inr (k, e) ↦ let bad = rw (e, build_nodes) at h in cc
      ]
  build_nodes-Filled m ((name, some t) ∷ rest) core core' nodes nodes' h =
      let fresh = λ (k : K8sNode Quantity).
        let n : Node Quantity = record {
          node_name = name;
          links = [];
          resources = resources_of k;
        } in
        n in
      let (k, e, f) =
        and_then-eq-ok (deref (get m name))
          (λ k. build_nodes m rest (if t.core then name else core, insert name (fresh k) nodes))
          h in
      Filled-cons name t rest core core' nodes nodes' (fresh k) refl (
        build_nodes-Filled m rest (if t.core then name else core) core'
          (insert name (fresh k) nodes) nodes' f)
