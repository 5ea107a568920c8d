-- ===== src/Placement/Paths/Explore.antt =====
-- The search of `findPathsTo` over the items of the queue, and what each round adds to them.
use oai_k8s.Common.{String, ℕ, zero, suc, ◌≡◌, refl, ap, ◌∙◌, sym, none, some, List, [], ◌∷◌, ◌++◌}
use oai_k8s.Common.{true, false, ◌==◌, if◌then◌else◌, get_last?, Memᴰ}
use oai_k8s.Common.{Result, ok, panic, out_of_fuel, List-cases, Option-cases, Bool-cases, inl, inr}
use oai_k8s.Common.{◌↔◌, ⊎_elim, subst}
use oai_k8s.Common.Dict.{Dict, lookup, keys}
use mathlib.Core.List.{append-nil, append_assoc}
use mathlib.Core.List.Memᴰ
use oai_k8s.Extern.{Platform, Laws, is_nil}
use oai_k8s.Utils.{Node}
use oai_k8s.Utils.StringSets.{StringSet, add, has}
use oai_k8s.Placement.Paths.{PathList, get_new_path, put_neighbours, search}

-- The paths that a round puts into the queue.
unfoldable pub new_paths : StringSet → List String → List String → PathList
new_paths visited path [] = []
new_paths visited path (n ∷ ns) =
    let later = new_paths visited path ns in
    if has visited n then later else get_new_path path n ∷ later

pub mem-new_paths :
    (visited : StringSet) (path ns : List String) (p : List String)
    → Memᴰ p (new_paths visited path ns)
      ↔ ((v : String) × Memᴰ v ns × (has visited v ≡ false) × (p ≡ get_new_path path v))
unfolding new_paths
mem-new_paths visited path [] p =
    (λ m. absurd (Memᴰ.not-nil m), λ (v, m, f, e). absurd (Memᴰ.not-nil m))
mem-new_paths visited path (n ∷ ns) p =
    let ih = mem-new_paths visited path ns p in
    elim (Bool-cases (has visited n)) [
      | inl h ↦ rw h (
        λ m. let (v, t, f, e) = ih.0 m in (v, Memᴰ.tail t, f, e),
        λ (v, m, f, e). ih.1 (v, ⊎_elim (λ (q : v ≡ n). cc) (λ t. t) (Memᴰ.cases_cons m), f, e),
      )
      | inr h ↦ rw h (
        λ m.
            ⊎_elim (λ q. (n, Memᴰ.head refl, h, q))
              (λ t. let (v, u, f, e) = ih.0 t in (v, Memᴰ.tail u, f, e)) (Memᴰ.cases_cons m),
        λ (v, m, f, e).
            ⊎_elim (λ q. Memᴰ.head (e ∙ ap (get_new_path path) q))
              (λ t. Memᴰ.tail (ih.1 (v, t, f, e))) (Memᴰ.cases_cons m),
      )
    ]

module _ {Quantity : Type 0} (nodes : Dict (Node Quantity)) (order : ℕ → List String → List String)
    (node_to_find : String) where
  abbrev pub grow : ℕ → StringSet → List String → Node Quantity → PathList
  grow t visited path node = new_paths visited path (order t (keys node.links))

  abbrev pub note : List String → String → PathList → PathList
  note path current found = if current == node_to_find then found ++ path ∷ [] else found

  unfoldable pub explore : ℕ → StringSet → PathList → PathList → Result PathList
  explore zero visited [] found = ok found
  explore zero visited (path ∷ rest) found = out_of_fuel
  explore (suc fuel) visited [] found = ok found
  explore (suc fuel) visited (path ∷ rest) found = elim (get_last? path) [
    | none ↦ panic
    | some current ↦ elim (lookup current nodes) [
      | none ↦ panic
      | some node ↦
          explore fuel (current ∷ visited) (rest ++ grow fuel (current ∷ visited) path node)
            (note path current found)
    ]
  ]

  -- An invariant that each round keeps holds at the end, where no path is pending.
  pub explore_rule {ℓ} :
      (P : StringSet → PathList → PathList → Type ℓ)
      → ((t : ℕ) (visited : StringSet) (path : List String) (rest found : PathList)
            (current : String) (node : Node Quantity)
          → get_last? path ≡ some current
          → lookup current nodes ≡ some node
          → P visited (path ∷ rest) found
          → P
              (current ∷ visited)
              (rest ++ grow t (current ∷ visited) path node)
              (note path current found))
      → (fuel : ℕ) (visited : StringSet) (pending found : PathList) (out : PathList)
      → P visited pending found
      → explore fuel visited pending found ≡ ok out
      → (v : StringSet) × P v [] out
  unfolding explore
  explore_rule P keep zero visited [] found out h e =
      (visited, subst (P visited []) (let same : found ≡ out = cc in same) h)
  explore_rule P keep zero visited (path ∷ rest) found out h e = cc
  explore_rule P keep (suc fuel) visited [] found out h e =
      (visited, subst (P visited []) (let same : found ≡ out = cc in same) h)
  explore_rule P keep (suc fuel) visited (path ∷ rest) found out h e =
      elim (Option-cases (get_last? path)) [
        | inl n ↦ let stopped : panic ≡ ok out = rw (n, explore) at e in cc
        | inr (current, l) ↦ elim (Option-cases (lookup current nodes)) [
          | inl n ↦ let stopped : panic ≡ ok out = rw (l, n, explore) at e in cc
          | inr (node, m) ↦
              explore_rule P keep fuel (current ∷ visited) _ _ out
                (keep fuel visited path rest found current node l m h) (rw (l, m, explore) at e)
        ]
      ]

module _ (P : Platform) (L : Laws P) where
  open P use {Quantity, Queue, is_empty, get}

  abbrev items : Queue (List String) → PathList
  items = L.items (List String)

  items-put_neighbours :
      (visited : StringSet) (path ns : List String) (q : Queue (List String))
      → items (put_neighbours P visited path ns q) ≡ items q ++ new_paths visited path ns
  unfolding put_neighbours new_paths
  items-put_neighbours visited path [] q = sym (append-nil _)
  items-put_neighbours visited path (n ∷ ns) q = elim (Bool-cases (has visited n)) [
    | inl h ↦ rw h (items-put_neighbours visited path ns q)
    | inr h ↦
        rw (h, items-put_neighbours visited path ns, L.items-put)
          (append_assoc (items q) (get_new_path path n ∷ []) (new_paths visited path ns))
  ]

  items-next :
      (q : Queue (List String)) (path : List String) (rest : PathList)
      → items q ≡ path ∷ rest
      → (q' : Queue (List String)) × (get (List String) q ≡ some (path, q')) × (items q' ≡ rest)
  items-next q path rest e = rw e at (L.items-get (List String) q)

  module _ (nodes : Dict (Node Quantity)) (order : ℕ → List String → List String)
      (node_to_find : String) where
    -- The search over the queue is the search over its items: it waits for nothing.
    pub search-explore :
        (fuel : ℕ) (visited : StringSet) (q : Queue (List String)) (found : PathList)
        → search P nodes order node_to_find fuel visited q found
          ≡ explore nodes order node_to_find fuel visited (items q) found
    unfolding search explore add
    search-explore zero visited q found = elim (List-cases (items q)) [
      | inl e ↦ rw (L.items-is_empty, e, explore)
      | inr (path, rest, e) ↦ rw (L.items-is_empty, e, explore)
    ]
    search-explore (suc fuel) visited q found = elim (List-cases (items q)) [
      | inl e ↦
          let empty : is_empty (List String) q ≡ true =
            L.items-is_empty (List String) q ∙ ap is_nil e in
          rw (empty, search) (rw (e, explore))
      | inr (path, rest, e) ↦
          let more : is_empty (List String) q ≡ false =
            L.items-is_empty (List String) q ∙ ap is_nil e in
          let (q', g, e') = items-next q path rest e in
          rw (more, g, search)
            (rw (e, explore)
              (elim (Option-cases (get_last? path)) [
                | inl n ↦ rw n
                | inr (c, l) ↦ elim (Option-cases (lookup c nodes)) [
                  | inl n ↦ rw (l, n)
                  | inr (node, m) ↦
                      let V = c ∷ visited in
                      let ns = order fuel (keys node.links) in
                      let found' = note nodes order node_to_find path c found in
                      rw (l, m)
                        (search-explore fuel V (put_neighbours P V path ns q') found'
                          ∙ ap (λ ps. explore nodes order node_to_find fuel V ps found')
                              (items-put_neighbours V path ns q'
                                ∙ ap (λ ps. ps ++ new_paths V path ns) e'))
                ]
              ]))
    ]
