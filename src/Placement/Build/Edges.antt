-- ===== src/Placement/Build/Edges.antt =====
-- What `NewPlacementBFS` leaves when it writes one neighbour of a node.
use oai_k8s.Common.{String, ◌≡◌, ap, sym, ◌∙◌, subst, ◌≢◌, Option, none, some, [], ◌∷◌}
use oai_k8s.Common.{Memᴰ, Memᴰ-cons, ◌⊎◌, ⊎_elim, inl, inr, ◌↔◌, arith, str_dec}
use oai_k8s.Common.{ok, and_then-eq-ok, deref}
use oai_k8s.Common.Dict.{
  Dict, insert, lookup, keys, lookup-insert, lookup-insert_self, lookup-insert_ne,
}
use oai_k8s.Utils.{Node}
use oai_k8s.Placement.Build.{connect}
use oai_k8s.Placement.Paths.Walks.{Edge}
use oai_k8s.Placement.Network.Crossing.{Points, links_at_of_lookup}

keys-insert :
    {V : Type 0} (j k : String) (v : V) (d : Dict V)
    → Memᴰ j (keys (insert k v d)) ↔ ((j ≡ k) ⊎ Memᴰ j (keys d))
unfolding insert
keys-insert j k v [] = Memᴰ-cons j k []
keys-insert j k v ((i, w) ∷ d) = elim (str_dec k i) [
  | yes e ↦ ground (arith, e, Memᴰ-cons j k (keys d), Memᴰ-cons j i (keys d))
  | no n ↦
      ground
        (arith, n, keys-insert j k v d, Memᴰ-cons j i (keys d), Memᴰ-cons j i (keys (insert k v d)))
]

pub deref-eq-ok : {A : Type 0} (m : Option A) {a : A} → deref m ≡ ok a → m ≡ some a
deref-eq-ok none h = cc
deref-eq-ok (some b) h = cc

module _ {Quantity : Type 0} where
  abbrev pub Known : Dict (Node Quantity) → String → Type 0
  Known nodes u = (node : Node Quantity) × (lookup u nodes ≡ some node)

  -- What a write of a neighbour leaves.
  pub record Connects (nodes : Dict (Node Quantity)) (a b l : String)
      (nodes' : Dict (Node Quantity)) : Type 0 where
    pub first : Known nodes a
    pub known : (u : String) → Known nodes' u ↔ Known nodes u
    pub edges : (u v : String) → Edge nodes' u v ↔ (Edge nodes u v ⊎ (u ≡ a) × (v ≡ b))
    pub pointers :
        (u v l' : String)
        → Points nodes' u v l'
        → Points nodes u v l' ⊎ (u ≡ a) × (v ≡ b) × (l' ≡ l)

  module _ (a b l : String) (nodes : Dict (Node Quantity)) (node : Node Quantity)
      (at_a : lookup a nodes ≡ some node) where
    abbrev node' : Node Quantity
    node' = record node { links = insert b l node.links }

    abbrev written : Dict (Node Quantity)
    written = insert a node' nodes

    at_other : (u : String) → u ≢ a → lookup u written ≡ lookup u nodes
    at_other u n = lookup-insert_ne u a node' nodes n

    at_self : (u : String) → u ≡ a → lookup u written ≡ some node'
    at_self u e = rw e (lookup-insert_self a node' nodes)

    known_written : (u : String) → Known written u ↔ Known nodes u
    known_written u = elim (str_dec u a) [
      | yes e ↦ (λ _. (node, rw e at_a), λ _. (node', at_self u e))
      | no n ↦ (λ (m, x). (m, sym (at_other u n) ∙ x), λ (m, x). (m, at_other u n ∙ x))
    ]

    edges_written : (u v : String) → Edge written u v ↔ (Edge nodes u v ⊎ (u ≡ a) × (v ≡ b))
    edges_written u v = elim (str_dec u a) [
      | yes e ↦ (
        λ (m, x, k).
            let same : m ≡ node' = let y = sym x ∙ at_self u e in cc in
            ⊎_elim (λ f. inr (e, f)) (λ t. inl (node, rw e at_a, t))
              ((keys-insert v b l node.links).0 (subst (λ z. Memᴰ v (keys z.links)) same k)),
        λ h. (
          node',
          at_self u e,
          (keys-insert v b l node.links).1 (
              ⊎_elim
                (λ (m, x, k).
                  let same : m ≡ node =
                    let y = sym x ∙ subst (λ z. lookup z nodes ≡ some node) (sym e) at_a in cc in
                  inr (subst (λ z. Memᴰ v (keys z.links)) same k))
                (λ (_, f). inl f) h),
        ),
      )
      | no n ↦ (
        λ (m, x, k). inl (m, sym (at_other u n) ∙ x, k),
        ⊎_elim (λ (m, x, k). (m, at_other u n ∙ x, k)) (λ (e, _). absurd (n e)),
      )
    ]

    pointers_written :
        (u v l' : String)
        → Points written u v l'
        → Points nodes u v l' ⊎ (u ≡ a) × (v ≡ b) × (l' ≡ l)
    pointers_written u v l' (links, x, y) = elim (str_dec u a) [
      | yes e ↦
          let at_u = sym x ∙ links_at_of_lookup u written node' (at_self u e) in
          let same : links ≡ insert b l node.links = cc in
          let found =
            sym (lookup-insert v b l node.links) ∙ subst (λ z. lookup v z ≡ some l') same y in
          elim (str_dec v b) [
            | yes f ↦ inr (e, f, ground (arith, f, found))
            | no n ↦
                inl (
                  node.links,
                  rw e (links_at_of_lookup a nodes node at_a),
                  ground (arith, n, found),
                )
          ]
      | no n ↦ inl (
        links,
        ap (λ m. elim m [ none ↦ none | some z ↦ some z.links ]) (sym (at_other u n)) ∙ x,
        y,
      )
    ]

  pub connect-Connects :
      (a b l : String) (nodes nodes' : Dict (Node Quantity))
      → connect a b l nodes ≡ ok nodes'
      → Connects nodes a b l nodes'
  unfolding connect
  connect-Connects a b l nodes nodes' h =
      let (node, e, f) =
        and_then-eq-ok (deref (lookup a nodes))
          (λ node. ok (insert a (record node { links = insert b l node.links }) nodes)) h in
      let at_a = deref-eq-ok (lookup a nodes) e in
      let same : written a b l nodes node at_a ≡ nodes' = cc in
      subst (Connects nodes a b l) same (record {
        first = (node, at_a);
        known = known_written a b l nodes node at_a;
        edges = edges_written a b l nodes node at_a;
        pointers = pointers_written a b l nodes node at_a;
      })
