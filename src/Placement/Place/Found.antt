-- ===== src/Placement/Place/Found.antt =====
-- The position that one round of `Place` finds (operator/controllers/algorithm/placement.go).
use oai_k8s.Common.{String, ℕ, ◌≡◌, ap, sym, subst, ◌∙◌, true, false, some, List, [], get_elem?}
use oai_k8s.Common.{Memᴰ, Permᴰ, Distinct, ◌⊎◌, ⊎_elim, inl, inr}
use oai_k8s.Common.{ok, reads, >>=-eq-ok}
use oai_k8s.Common.Dict.{Dict, lookup}
use oai_k8s.Extern.{Platform, Laws}
use oai_k8s.Api.{ChainPosition}
use oai_k8s.Utils.{Node}
use oai_k8s.Placement.State.{Graph, PlacementBfs, Position, Orders}
use oai_k8s.Placement.Paths.{PathList, find_paths_to}
use oai_k8s.Placement.Paths.Correct.{find_paths_to-Finds}
use oai_k8s.Placement.Paths.Walks.{SimplePath, SimplePath-Distinct}
use oai_k8s.Placement.Dsg8.{Disaggregation8, between}
use oai_k8s.Placement.Network.{validate_network}
use oai_k8s.Placement.Place.Candidates.{Suits, Chooses}
use oai_k8s.Placement.Place.{validate, dsg8_of, find_position}
use oai_k8s.Placement.Place.Picked.{validate-Picked}

-- A simple path from the root to the node of the unit, the CU on its second node, and the DU, if there is
-- one, on a node between that and the last one.
pub record Stands {Quantity : Type 0} (nodes : Dict (Node Quantity)) (root ru_node : String)
    (position : Position) : Type 0 where
  pub path_simple : SimplePath nodes root position.path ru_node
  pub cu_second : get_elem? position.path 1 ≡ some position.cu_node_name
  pub du_between : (position.du_node_name ≡ "") ⊎ Memᴰ position.du_node_name (between position.path)

module _ (P : Platform) (L : Laws P) (p : PlacementBfs P.Float P.Quantity) (orders : Orders)
    (links_ranged : (i t : ℕ) (ks : List String) → Permᴰ (orders.links i t ks) ks)
    (positions_ranged : (i : ℕ) (ps : List (ℕ × Position)) → Permᴰ (orders.positions i ps) ps)
    (not_cached : p.cache_paths ≡ []) where
  paths_SimplePath :
      (i : ℕ) (name : String) (g : Graph P.Float P.Quantity) (paths : PathList)
      → find_paths_to P (record p { graph = g }) (orders.links i) name ≡ ok paths
      → (path : List String) → Memᴰ path paths
      → SimplePath g.nodes p.root path name
  paths_SimplePath i name g paths e path m =
      let found =
        find_paths_to-Finds P L (record p { graph = g }) (orders.links i) (links_ranged i) name
          (ap (lookup name) not_cached) paths e in
      found.sound path m

  pub paths_Distinct :
      (i : ℕ) (name : String) (g : Graph P.Float P.Quantity) (paths : PathList)
      → find_paths_to P (record p { graph = g }) (orders.links i) name ≡ ok paths
      → (path : List String) → Memᴰ path paths
      → Distinct path
  paths_Distinct i name g paths e path m =
      SimplePath-Distinct g.nodes p.root (paths_SimplePath i name g paths e path m)

  pub find_position-Stands :
      (i : ℕ) (ru : ChainPosition) (g t : Graph P.Float P.Quantity) (position : Position)
      → find_position P p orders i ru g ≡ (ok (some position), t)
      → Stands g.nodes p.root ru.ru_node position
  unfolding find_position
  find_position-Stands i ru g t position h =
      let paths_of = λ (g : Graph P.Float P.Quantity).
        find_paths_to P (record p { graph = g }) (orders.links i) ru.ru_node in
      let (paths, t', h₁, h₂) =
        >>=-eq-ok (reads paths_of) (validate P (dsg8_of P p) (orders.positions i)) g h in
      let (picked, same) =
        validate-Picked P (dsg8_of P p) (orders.positions i) (positions_ranged i) paths position t'
          t h₂ in
      let simple =
        paths_SimplePath i ru.ru_node g paths (ap (λ x. x.0) h₁) picked.path picked.offered in
      let back = sym picked.fit.of_path in
      record {
        path_simple = subst (λ q. SimplePath g.nodes p.root q ru.ru_node) back simple;
        cu_second =
            subst (λ q. get_elem? q 1 ≡ some position.cu_node_name) back picked.fit.cu_second;
        du_between =
            ⊎_elim (λ (e, _). inl e)
              (λ (m, s). inr (subst (λ q. Memᴰ position.du_node_name (between q)) back m))
              picked.fit.du_suits;
      }

module _ (P : Platform) (d : Disaggregation8 P.Float P.Quantity) where
  -- What a position for a unit is chosen by, in the graph at that time.
  pub record Chosen (paths : PathList) (position : Position) (g : Graph P.Float P.Quantity)
      : Type 0 where
    pub offered : Memᴰ position.path paths
    pub cu_second : get_elem? position.path 1 ≡ some position.cu_node_name
    pub cu_fits : Suits P d g.nodes position.cu_node_name
    pub du_chosen : Chooses P d g.nodes (between position.path) position.du_node_name
    pub passes :
        validate_network P d.network_requirements position.path position.cu_node_name
          position.du_node_name false g
        ≡ (ok true, g)

module _ (P : Platform) (p : PlacementBfs P.Float P.Quantity) (orders : Orders)
    (positions_ranged : (i : ℕ) (ps : List (ℕ × Position)) → Permᴰ (orders.positions i ps) ps) where
  -- When a round of `Place` finds a position for a unit, for every order in which the positions are met, it has left the
  -- graph as it was; the path is one that `findPathsTo` returns in that graph, the CU is on its second node, which has the
  -- resources in that graph; the DU is on a node between that and the last one that has them, or on none if none of
  -- these nodes has them; and `validateNetwork` accepts the path, the CU and the DU in that graph.
  pub find_position-Chosen :
      (i : ℕ) (ru : ChainPosition) (g t : Graph P.Float P.Quantity) (position : Position)
      → find_position P p orders i ru g ≡ (ok (some position), t)
      → (t ≡ g)
        × (paths : PathList) × (find_paths_to P (record p { graph = g }) (orders.links i) ru.ru_node
            ≡ ok paths)
        × Chosen P (dsg8_of P p) paths position g
  unfolding find_position
  find_position-Chosen i ru g t position h =
      let d = dsg8_of P p in
      let paths_of = λ (g : Graph P.Float P.Quantity).
        find_paths_to P (record p { graph = g }) (orders.links i) ru.ru_node in
      let (paths, t', h₁, h₂) =
        >>=-eq-ok (reads paths_of) (validate P d (orders.positions i)) g h in
      let (picked, same) =
        validate-Picked P d (orders.positions i) (positions_ranged i) paths position t' t h₂ in
      let left : t' ≡ g = sym (ap (λ x. x.1) h₁) in
      let back = sym picked.fit.of_path in
      let cu = position.cu_node_name in
      let du = position.du_node_name in
      (
        same ∙ left,
        paths,
        ap (λ x. x.0) h₁,
        subst (Chosen P d paths position) left (record {
          offered = subst (λ q. Memᴰ q paths) back picked.offered;
          cu_second = subst (λ q. get_elem? q 1 ≡ some cu) back picked.fit.cu_second;
          cu_fits = picked.fit.cu_suits;
          du_chosen = subst (λ q. Chooses P d t'.nodes (between q) du) back picked.fit.du_suits;
          passes =
              subst
                (λ q. validate_network P d.network_requirements q cu du false t' ≡ (ok true, t'))
                back picked.checked;
        }),
      )
