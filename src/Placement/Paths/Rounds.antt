-- ===== src/Placement/Paths/Rounds.antt =====
-- One round of the search keeps the invariant: the first path leaves the queue, and its extensions join it.
use oai_k8s.Common.{String, ℕ, suc, ◌≤◌, ◌≡◌, refl, ap, ◌∙◌, sym, subst, some, List, [], ◌∷◌, ◌++◌}
use oai_k8s.Common.{
  ◌⊎◌, ⊎_elim, inl, inr, ◌↔◌, get_last?, length, length-append, arith, Memᴰ, Memᴰ-append,
}
use oai_k8s.Common.{Bool-cases, contains_iff, false, Permᴰ, Memᴰ-perm, str_dec, if_pos, if_neg}
use oai_k8s.Common.Dict.{Dict, lookup, keys}
use mathlib.Core.List.Memᴰ
use mathlib.Core.List.Permᴰ
use oai_k8s.Utils.{Node}
use oai_k8s.Utils.StringSets.{StringSet, has}
use oai_k8s.Placement.Paths.{PathList, get_new_path}
use oai_k8s.Placement.Paths.Explore.{mem-new_paths, grow, note}
use oai_k8s.Placement.Paths.Walks.{Edge, SimplePath, extend, get_last?-SimplePath}
use oai_k8s.Placement.Paths.Invariant.{Ordered, Ordered-append, Known, Inv}

module _ {Quantity : Type 0} (nodes : Dict (Node Quantity)) (root target : String) where
  module _ (order : ℕ → List String → List String)
      (ranged : (t : ℕ) (ks : List String) → Permᴰ (order t ks) ks) where
    module _ (t : ℕ) (visited : StringSet) (path : List String) (rest found done : PathList)
        (current : String) (node : Node Quantity) (last : get_last? path ≡ some current)
        (look : lookup current nodes ≡ some node)
        (h : Inv nodes root target visited (path ∷ rest) found done) where
      abbrev added : PathList
      added = grow nodes order target t (current ∷ visited) path node

      end_of : (q : List String) (u : String) → q ≡ path → SimplePath nodes root q u → u ≡ current
      end_of q u e s =
          let l : some u ≡ some current =
            sym (get_last?-SimplePath nodes root s) ∙ ap get_last? e ∙ last in
          cc

      pub path-Simple : SimplePath nodes root path current
      path-Simple =
          let (u, s, c) = h.simple path (Memᴰ.head refl) in
          subst (SimplePath nodes root path) (end_of path u refl s) s

      path_visited : (w : String) → Memᴰ w path → Memᴰ w (current ∷ visited)
      path_visited w m =
          let (u, s, c) = h.simple path (Memᴰ.head refl) in
          ⊎_elim Memᴰ.tail (λ e. Memᴰ.head (e ∙ end_of path u refl s)) (c w m)

      fresh : (v : String) → has (current ∷ visited) v ≡ false → ¬ Memᴰ v (current ∷ visited)
      fresh v f m = let g = (contains_iff (current ∷ visited) v).1 m in cc

      -- What the round adds are the extensions of the path by nodes not yet visited.
      added_lem :
          (p : List String)
          → Memᴰ p added
          → (v : String) × Edge nodes current v
            × (¬ Memᴰ v path)
            × (p ≡ path ++ v ∷ [])
            × (length p ≡ suc (length path))
      unfolding get_new_path
      added_lem p m =
          let (v, k, f, e) =
            (mem-new_paths (current ∷ visited) path (order t (keys node.links)) p).0 m in
          (
            v,
            (node, look, Memᴰ-perm (ranged t (keys node.links)) k),
            λ x. fresh v f (path_visited v x),
            e,
            omega (arith, ap length e, length-append {0} path (v ∷ [])),
          )

      round-simple :
          (p : List String)
          → Memᴰ p (rest ++ added)
          → (u : String) × SimplePath nodes root p u
            × ((w : String) → Memᴰ w p → Memᴰ w (current ∷ visited) ⊎ (w ≡ u))
      round-simple p m = elim ((Memᴰ-append p rest added).0 m) [
        | inl r ↦
            let (u, s, c) = h.simple p (Memᴰ.tail r) in
            (u, s, λ w x. ⊎_elim (λ y. inl (Memᴰ.tail y)) inr (c w x))
        | inr a ↦
            let (v, d, n, e, l) = added_lem p a in
            (
              v,
              extend path-Simple d n e,
              λ w x.
                  ⊎_elim (λ y. inl (path_visited w y)) (λ y. inr (Memᴰ.eq_of_singleton y))
                    ((Memᴰ-append w path (v ∷ [])).0 (subst (Memᴰ w) e x)),
            )
      ]

      round-Ordered : Ordered (rest ++ added)
      round-Ordered =
          Ordered-append (length path) rest added h.ordered.1 h.ordered.0
            (λ q m. let (v, d, n, e, l) = added_lem q m in l)

      -- The path is at most as long as any that waits after the round.
      path-le :
          (n : ℕ) → n ≤ length path → (q : List String) → Memᴰ q (rest ++ added) → n ≤ length q
      path-le n b q m = elim ((Memᴰ-append q rest added).0 m) [
        | inl r ↦ omega (arith, (h.ordered.0 q r).0)
        | inr a ↦ let (v, d, x, e, l) = added_lem q a in omega arith
      ]

      round-seen :
          (w : String)
          → Memᴰ w (current ∷ visited)
          → (p : List String) × Memᴰ p (path ∷ done)
            × SimplePath nodes root p w
            × ((q : List String) → Memᴰ q (rest ++ added) → length p ≤ length q)
      round-seen w m = elim (Memᴰ.cases_cons m) [
        | inl e ↦ (
          path,
          Memᴰ.head refl,
          subst (SimplePath nodes root path) (sym e) path-Simple,
          path-le (length path) (omega arith),
        )
        | inr v ↦
            let (p, d, s, l) = h.seen w v in
            (p, Memᴰ.tail d, s, path-le (length p) (l path (Memᴰ.head refl)))
      ]

      round-known :
          (v : String)
          → Memᴰ v (current ∷ visited)
          → Known nodes root target (path ∷ done) v (length path)
      round-known v m = elim (Memᴰ.cases_cons m) [
        | inl e ↦ (
          path,
          Memᴰ.head refl,
          subst (SimplePath nodes root path) (sym e) path-Simple,
          omega arith,
        )
        | inr x ↦ let (p, d, s, l) = h.seen v x in (p, Memᴰ.tail d, s, l path (Memᴰ.head refl))
      ]

      round-closed :
          (q : List String) (u v : String)
          → Memᴰ q (path ∷ done)
          → SimplePath nodes root q u
          → Edge nodes u v
          → (Memᴰ (q ++ v ∷ []) (path ∷ done) ⊎ Memᴰ (q ++ v ∷ []) (rest ++ added))
            ⊎ Known nodes root target (path ∷ done) v (length q)
      unfolding get_new_path
      round-closed q u v m s (node', l, k) = elim (Memᴰ.cases_cons m) [
        | inl e ↦ elim (Bool-cases (has (current ∷ visited) v)) [
          | inl f ↦ inr (
              subst (λ x. Known nodes root target (path ∷ done) v (length x)) (sym e)
                (round-known v ((contains_iff (current ∷ visited) v).0 f)))
          | inr f ↦
              let same : some node' ≡ some node =
                sym l ∙ ap (λ x. lookup x nodes) (end_of q u e s) ∙ look in
              let same' : node' ≡ node = cc in
              let k' = subst (λ (x : Node Quantity). Memᴰ v (keys x.links)) same' k in
              inl (
                inr (
                  Memᴰ.append_right rest (
                    (mem-new_paths (current ∷ visited) path (order t (keys node.links))
                        (q ++ v ∷ [])).1
                      (
                        v,
                        Memᴰ-perm (Permᴰ.symm (ranged t (keys node.links))) k',
                        f,
                        ap (λ x. x ++ v ∷ []) e,
                      ))))
        ]
        | inr d ↦ elim (h.closed q u v d s (node', l, k)) [
          | inl (inl x) ↦ inl (inl (Memᴰ.tail x))
          | inl (inr x) ↦
              ⊎_elim (λ y. inl (inl (Memᴰ.head y))) (λ y. inl (inr (Memᴰ.append_left added y)))
                (Memᴰ.cases_cons x)
          | inr (p, x, s', b) ↦ inr (p, Memᴰ.tail x, s', b)
        ]
      ]

      mem-note :
          (p : List String)
          → Memᴰ p (note nodes order target path current found)
            ↔ (Memᴰ p found ⊎ (p ≡ path) × (current ≡ target))
      mem-note p = elim (str_dec current target) [
        | yes e ↦ rw (if_pos _ e) (
          λ m.
              ⊎_elim inl (λ x. inr (Memᴰ.eq_of_singleton x, e))
                ((Memᴰ-append p found (path ∷ [])).0 m),
          ⊎_elim (Memᴰ.append_left (path ∷ [])) (λ (x, f). Memᴰ.append_right found (Memᴰ.head x)),
        )
        | no n ↦ rw (if_neg _ n) (inl, ⊎_elim (λ x. x) (λ (x, f). absurd (n f)))
      ]

      round-results :
          (p : List String)
          → Memᴰ p (note nodes order target path current found)
            ↔ (Memᴰ p (path ∷ done) × SimplePath nodes root p target)
      round-results p = (
        λ m.
            ⊎_elim (λ x. let (d, s) = (h.results p).0 x in (Memᴰ.tail d, s))
              (λ (e, f). (
                Memᴰ.head e,
                subst (λ x. SimplePath nodes root x target) (sym e)
                    (subst (SimplePath nodes root path) f path-Simple),
              ))
              ((mem-note p).0 m),
        λ (m, s). (mem-note p).1 (
            ⊎_elim (λ e. inr (e, sym (end_of p target e s))) (λ d. inl ((h.results p).1 (d, s)))
              (Memᴰ.cases_cons m)),
      )

      -- One round, in which `path` leaves the queue.
      pub Inv-round :
          Inv nodes root target
            (current ∷ visited)
            (rest ++ added)
            (note nodes order target path current found)
            (path ∷ done)
      Inv-round = record {
        simple = round-simple;
        ordered = round-Ordered;
        seen = round-seen;
        root_path =
            ⊎_elim (λ d. inl (Memᴰ.tail d))
              (λ m.
                ⊎_elim (λ e. inl (Memᴰ.head e)) (λ r. inr (Memᴰ.append_left added r))
                  (Memᴰ.cases_cons m))
              h.root_path;
        closed = round-closed;
        left = λ p m.
            ⊎_elim
              (λ e. (current, subst (λ x. SimplePath nodes root x current) (sym e) path-Simple))
              (h.left p) (Memᴰ.cases_cons m);
        results = round-results;
      }
