-- ===== src/Placement/Paths/Correct.antt =====
-- `findPathsTo` against walks in the graph.
use oai_k8s.Common.{
  String, ℕ, zero, suc, ◌-◌, ◌≤◌, ◌≡◌, refl, ap, sym, ◌∙◌, subst, some, none, List, [], ◌∷◌, ◌++◌,
}
use oai_k8s.Common.{
  ⊎_elim, inl, inr, get_last?, length, length-append, get_last?-concat, arith, Memᴰ, Permᴰ,
  Option-cases,
}
use oai_k8s.Common.{Result, ok, panic, hang, out_of_fuel, ◌≢◌}
use oai_k8s.Common.Dict.{Dict, lookup}
use mathlib.Core.List.Memᴰ
use oai_k8s.Extern.{Platform, Laws}
use oai_k8s.Utils.{Node}
use oai_k8s.Utils.StringSets.{StringSet, new_string_set}
use oai_k8s.Placement.State.{PlacementBfs}
use oai_k8s.Placement.Paths.{PathList, find_paths_to, weight, max_degree}
use oai_k8s.Placement.Paths.Explore.{explore, explore_rule, search-explore}
use oai_k8s.Placement.Paths.Walks.{
  Edge, Reach, here, step, SimplePath, origin, extend, IsShortest, IsShortest-prefix,
  get_last?-SimplePath,
}
use oai_k8s.Placement.Paths.Invariant.{Inv, Inv-start}
use oai_k8s.Placement.Paths.Rounds.{Inv-round}
use oai_k8s.Placement.Paths.Bound.{explore_ends, work, load}

-- A graph that the search can walk: the root and the ends of all links are nodes.
pub record IsClosed {Quantity : Type 0} (nodes : Dict (Node Quantity)) (root : String)
    : Type 0 where
  pub root_known : (node : Node Quantity) × (lookup root nodes ≡ some node)
  pub ends_known :
      (u v : String) → Edge nodes u v → (node : Node Quantity) × (lookup v nodes ≡ some node)

module _ {Quantity : Type 0} (nodes : Dict (Node Quantity)) (root target : String)
    (order : ℕ → List String → List String)
    (ranged : (t : ℕ) (ks : List String) → Permᴰ (order t ks) ks) where
  -- What holds of the paths that the search returns.
  pub record Finds (out : PathList) : Type 0 where
    pub sound : (p : List String) → Memᴰ p out → SimplePath nodes root p target
    pub complete : Reach nodes root target → (p : List String) × Memᴰ p out
    pub shortest :
        (p : List String)
        → SimplePath nodes root p target
        → IsShortest nodes root p target
        → Memᴰ p out

  SimplePath-known :
      IsClosed nodes root
      → {p : List String} {u : String} → SimplePath nodes root p u
      → (node : Node Quantity) × (lookup u nodes ≡ some node)
  SimplePath-known c (origin e f) = rw f c.root_known
  SimplePath-known c (extend {u = u} {v = v} s d n e) = c.ends_known u v d

  -- At the end of the search nothing waits.
  module _ (visited : StringSet) (out done : PathList)
      (h : Inv nodes root target visited [] out done) where
    shortest_done :
        {p : List String} {u : String}
        → SimplePath nodes root p u
        → IsShortest nodes root p u
        → Memᴰ p done
    shortest_done (origin e f) short =
        rw e (⊎_elim (λ d. d) (λ m. absurd (Memᴰ.not-nil m)) h.root_path)
    shortest_done {p} (extend {q = q} {u = u} {v = v} s d n e) short =
        let short' = subst (λ x. IsShortest nodes root x v) e short in
        let qd = shortest_done s (IsShortest-prefix nodes root s d short') in
        elim (h.closed q u v qd s d) [
          | inl (inl m) ↦ rw e m
          | inl (inr m) ↦ absurd (Memᴰ.not-nil m)
          | inr (r, m, s', l) ↦
              absurd (omega (arith, short r s', l, ap length e, length-append {0} q (v ∷ [])))
        ]

    Reach-done :
        {u : String}
        → Reach nodes root u
        → (p : List String) × Memᴰ p done × SimplePath nodes root p u
    Reach-done (here e) =
        (root ∷ [], ⊎_elim (λ d. d) (λ m. absurd (Memᴰ.not-nil m)) h.root_path, origin refl e)
    Reach-done (step {u = u} {v = v} r d) =
        let (q, m, s) = Reach-done r in
        elim (h.closed q u v m s d) [
          | inl (inl n) ↦
              let (w, s') = h.left (q ++ v ∷ []) n in
              let l : some w ≡ some v =
                sym (get_last?-SimplePath nodes root s') ∙ get_last?-concat q v in
              (
                q ++ v ∷ [],
                n,
                subst (SimplePath nodes root (q ++ v ∷ [])) (let e : w ≡ v = cc in e) s',
              )
          | inl (inr n) ↦ absurd (Memᴰ.not-nil n)
          | inr (p, n, s', l) ↦ (p, n, s')
        ]

    Inv-Finds : Finds out
    Inv-Finds = record {
      sound = λ p m. ((h.results p).0 m).1;
      complete = λ r. let (p, m, s) = Reach-done r in (p, (h.results p).1 (m, s));
      shortest = λ p s short. (h.results p).1 (shortest_done s short, s);
    }

  -- In a closed graph the search meets no nil pointer, and ends.
  explore_returns :
      IsClosed nodes root
      → (fuel : ℕ) (visited : StringSet) (pending found done : PathList)
      → Inv nodes root target visited pending found done
      → explore nodes order target fuel visited pending found ≢ out_of_fuel
      → (out : PathList) × (explore nodes order target fuel visited pending found ≡ ok out)
  unfolding explore
  explore_returns c zero visited [] found done h e = (found, refl)
  explore_returns c zero visited (path ∷ rest) found done h e = absurd (e refl)
  explore_returns c (suc fuel) visited [] found done h e = (found, refl)
  explore_returns c (suc fuel) visited (path ∷ rest) found done h e =
      let (u, s, _) = h.simple path (Memᴰ.head refl) in
      let last = get_last?-SimplePath nodes root s in
      let (node, look) = SimplePath-known c s in
      let (out, r) =
        explore_returns c fuel (u ∷ visited) _ _ (path ∷ done)
          (Inv-round nodes root target order ranged fuel visited path rest found done u node last
            look h)
          (rw (last, look, explore) at e) in
      (out, rw (last, look, explore) r)

  explore-ne-hang :
      (fuel : ℕ) (visited : StringSet) (pending found : PathList)
      → explore nodes order target fuel visited pending found ≢ hang
  unfolding explore
  explore-ne-hang zero visited [] found e = cc
  explore-ne-hang zero visited (path ∷ rest) found e = cc
  explore-ne-hang (suc fuel) visited [] found e = cc
  explore-ne-hang (suc fuel) visited (path ∷ rest) found e = elim (Option-cases (get_last? path)) [
    | inl n ↦ let r : ◌≡◌ {A = Result PathList} panic hang = rw (n, explore) at e in cc
    | inr (c, l) ↦ elim (Option-cases (lookup c nodes)) [
      | inl n ↦ let r : ◌≡◌ {A = Result PathList} panic hang = rw (l, n, explore) at e in cc
      | inr (node, m) ↦ explore-ne-hang fuel (c ∷ visited) _ _ (rw (l, m, explore) at e)
    ]
  ]

module _ (P : Platform) (L : Laws P) (p : PlacementBfs P.Float P.Quantity)
    (order : ℕ → List String → List String)
    (ranged : (t : ℕ) (ks : List String) → Permᴰ (order t ks) ks) (node_to_find : String)
    (not_cached : lookup node_to_find p.cache_paths ≡ none) where
  abbrev nodes : Dict (Node P.Quantity)
  nodes = p.graph.nodes

  abbrev fuel : ℕ
  fuel = weight (max_degree nodes) (length nodes)

  find_paths_to-explore :
      find_paths_to P p order node_to_find
      ≡ explore nodes order node_to_find fuel [] ((p.root ∷ []) ∷ []) []
  unfolding find_paths_to new_string_set
  find_paths_to-explore =
      let start : L.items (List String)
            (P.put (List String) (P.new_queue (List String) (length nodes)) ((p.root ∷ []) ∷ []))
          ≡ (p.root ∷ []) ∷ [] =
        rw (L.items-put, L.items-new) in
      rw (not_cached, find_paths_to)
        (search-explore P L nodes order node_to_find fuel [] _ []
          ∙ ap (λ ps. explore nodes order node_to_find fuel [] ps []) start)

  start-load : load nodes p.root node_to_find order ranged ((p.root ∷ []) ∷ []) ≤ fuel
  unfolding work
  start-load = let e : suc (length nodes) - 1 ≡ length nodes = omega arith in rw e (omega arith)

  start-ends : explore nodes order node_to_find fuel [] ((p.root ∷ []) ∷ []) [] ≢ out_of_fuel
  start-ends =
      explore_ends nodes p.root node_to_find order ranged fuel [] ((p.root ∷ []) ∷ []) [] []
        (Inv-start nodes p.root node_to_find) start-load

  -- On any graph, for every order of iteration, and where nothing is cached for the node, the search comes
  -- to an end within its fuel, and never waits on its queue.
  pub find_paths_to_ends :
      (find_paths_to P p order node_to_find ≢ out_of_fuel)
      × (find_paths_to P p order node_to_find ≢ hang)
  find_paths_to_ends =
      rw find_paths_to-explore
        (start-ends, explore-ne-hang nodes p.root node_to_find order ranged fuel [] _ [])

  explore-Finds :
      (out : PathList)
      → explore nodes order node_to_find fuel [] ((p.root ∷ []) ∷ []) [] ≡ ok out
      → Finds nodes p.root node_to_find order ranged out
  explore-Finds out e =
      let (visited, (done, h)) =
        explore_rule nodes order node_to_find
          (λ v ps found. (done : PathList) × Inv nodes p.root node_to_find v ps found done)
          (λ t v path rest found c node l m (done, i). (
            path ∷ done,
            Inv-round nodes p.root node_to_find order ranged t v path rest found done c node l m i,
          ))
          fuel [] ((p.root ∷ []) ∷ []) [] out ([], Inv-start nodes p.root node_to_find) e in
      Inv-Finds nodes p.root node_to_find order ranged visited out done h

  -- What the search returns is right on any graph.
  pub find_paths_to-Finds :
      (out : PathList)
      → find_paths_to P p order node_to_find ≡ ok out
      → Finds nodes p.root node_to_find order ranged out
  find_paths_to-Finds out e = explore-Finds out (sym find_paths_to-explore ∙ e)

  -- On a closed graph, for every order of iteration, and where nothing is cached for the node, the search
  -- returns a list of paths. All of them are simple paths along links
  -- from the root to the node, one is there if the node can be reached, and every shortest path is
  -- among them.
  pub find_paths_to_correct :
      IsClosed nodes p.root
      → (out : PathList) × (find_paths_to P p order node_to_find ≡ ok out)
        × Finds nodes p.root node_to_find order ranged out
  find_paths_to_correct c =
      let (out, e) =
        explore_returns nodes p.root node_to_find order ranged c fuel [] ((p.root ∷ []) ∷ []) [] []
          (Inv-start nodes p.root node_to_find) start-ends in
      (out, find_paths_to-explore ∙ e, explore-Finds out e)
