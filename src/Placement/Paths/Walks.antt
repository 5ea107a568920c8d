-- ===== src/Placement/Paths/Walks.antt =====
-- Walks in the graph: links between nodes, simple paths from the root, and reachability.
use oai_k8s.Common.{String, ◌≡◌, refl, ap, ◌∙◌, sym, some, List, [], ◌∷◌, ◌++◌, ◌⊎◌, ⊎_elim}
use oai_k8s.Common.{
  inl, inr, get_last?, get_last?-concat, length, arith, Memᴰ, Memᴰ-append, Distinct, subst,
}
use oai_k8s.Common.{
  ◌≤◌, length-append, length_of_Distinct, Distinct-concat, Bool-cases, contains, contains_iff,
}
use oai_k8s.Common.Dict.{Dict, lookup, keys, mem-keys_of_lookup}
use mathlib.Core.List.Memᴰ
use oai_k8s.Utils.{Node}

module _ {Quantity : Type 0} (nodes : Dict (Node Quantity)) where
  -- `u` is a node of the graph, and it has a link to `v`.
  abbrev pub Edge : String → String → Type 0
  Edge u v = (node : Node Quantity) × (lookup u nodes ≡ some node) × Memᴰ v (keys node.links)

  module _ (root : String) where
    pub data Reach : String → Type 0 where
      here : {u : String} → u ≡ root → Reach u
      step : {u v : String} → Reach u → Edge u v → Reach v

    -- `p` leads from the root to `u` along links, and meets no node twice.
    pub data SimplePath : List String → String → Type 0 where
      origin : {p : List String} {u : String} → p ≡ root ∷ [] → u ≡ root → SimplePath p u
      extend :
          {p q : List String} {u v : String}
          → SimplePath q u
          → Edge u v
          → ¬ Memᴰ v q
          → p ≡ q ++ v ∷ []
          → SimplePath p v

    pub get_last?-SimplePath :
        {p : List String} {u : String} → SimplePath p u → get_last? p ≡ some u
    get_last?-SimplePath (origin e f) = rw (e, f)
    get_last?-SimplePath (extend {q = q} {v = v} s d n e) = rw e (get_last?-concat q v)

    -- All nodes before the last one are nodes of the graph.
    pub SimplePath-keys :
        {p : List String} {u : String}
        → SimplePath p u
        → (w : String) → Memᴰ w p
        → Memᴰ w (keys nodes) ⊎ (w ≡ u)
    SimplePath-keys (origin e f) w m = inr (Memᴰ.eq_of_singleton (subst (Memᴰ w) e m) ∙ sym f)
    SimplePath-keys (extend {q = q} {u = u} {v = v} s (node, l, k) n e) w m =
        ⊎_elim
          (λ t.
            inl
              (⊎_elim (λ x. x) (λ x. rw x (mem-keys_of_lookup u nodes l)) (SimplePath-keys s w t)))
          (λ t. inr (Memᴰ.eq_of_singleton t)) ((Memᴰ-append w q (v ∷ [])).0 (subst (Memᴰ w) e m))

    pub SimplePath-Distinct : {p : List String} {u : String} → SimplePath p u → Distinct p
    SimplePath-Distinct (origin e f) = rw e (Memᴰ.not-nil, tt)
    SimplePath-Distinct (extend {q = q} {v = v} s d n e) =
        rw e (Distinct-concat q v (SimplePath-Distinct s) n)

    -- A path to a node of the graph has at most as many nodes as the graph.
    pub length-SimplePath :
        {p : List String} {u : String}
        → SimplePath p u
        → Memᴰ u (keys nodes)
        → length p ≤ length (keys nodes)
    length-SimplePath {p} s k = length_of_Distinct p (keys nodes) (SimplePath-Distinct s) (λ w m.
        ⊎_elim (λ t. t) (λ e. subst (λ x. Memᴰ x (keys nodes)) (sym e) k) (SimplePath-keys s w m))

    -- A node on a path is reached by a path that is not longer.
    pub SimplePath-to_member :
        {p : List String} {u : String}
        → SimplePath p u
        → (w : String) → Memᴰ w p
        → (q : List String) × SimplePath q w × (length q ≤ length p)
    SimplePath-to_member {p} (origin e f) w m =
        (p, origin e (Memᴰ.eq_of_singleton (subst (Memᴰ w) e m)), omega arith)
    SimplePath-to_member {p} (extend {q = q} {v = v} s d n e) w m =
        elim ((Memᴰ-append w q (v ∷ [])).0 (subst (Memᴰ w) e m)) [
          | inl t ↦
              let (r, s', l) = SimplePath-to_member s w t in
              (r, s', omega (arith, ap length e, length-append {0} q (v ∷ [])))
          | inr t ↦ (
            p,
            extend s (subst (Edge _) (sym (Memᴰ.eq_of_singleton t)) d)
                (λ x. n (subst (λ y. Memᴰ y q) (Memᴰ.eq_of_singleton t) x))
                (e ∙ ap (λ y. q ++ y ∷ []) (sym (Memᴰ.eq_of_singleton t))),
            omega arith,
          )
        ]

    -- `p` is a shortest path to `u`.
    abbrev pub IsShortest : List String → String → Type 0
    IsShortest p u = (q : List String) → SimplePath q u → length p ≤ length q

    -- What a shortest path extends is a shortest path.
    pub IsShortest-prefix :
        {q : List String} {u v : String}
        → SimplePath q u
        → Edge u v
        → IsShortest (q ++ v ∷ []) v
        → IsShortest q u
    IsShortest-prefix {q} {u} {v} s d short r s' = elim (Bool-cases (contains r v)) [
      | inl m ↦
          let (p, s'', l) = SimplePath-to_member s' v ((contains_iff r v).0 m) in
          omega (arith, short p s'', length-append {0} q (v ∷ []))
      | inr n ↦
          let fresh : ¬ Memᴰ v r = λ m. let h = (contains_iff r v).1 m in cc in
          omega (
            arith,
            short (r ++ v ∷ []) (extend s' d fresh refl),
            length-append {0} q (v ∷ []),
            length-append {0} r (v ∷ []),
          )
    ]
