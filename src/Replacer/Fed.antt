-- ===== src/Replacer/Fed.antt =====
-- The whole way of the addresses of a piece: `syncValuesConfigMap` (operator/controllers/split_controller.go)
-- writes them into a config map, which is mounted where replacer/cmd/main.go reads it.
use oai_k8s.Common.{
  String, ℕ, suc, ◌≡◌, refl, sym, subst, Option, none, some, with_context, with_context-eq-ok, ap,
  ◌∙◌, if◌then◌else◌,
}
use oai_k8s.Common.{ok, out_of_fuel, pure, ◌>>=◌, >>=-eq-ok}
use oai_k8s.Cluster.{ConfigMap, Split}
use oai_k8s.SplitController.Defs.{
  SplitPiece, cu, du, ru, piece_text, SplitEnv, Pod, get_split_object_key,
}
use oai_k8s.SplitController.ConfigMaps.{
  value_of, address, pod_address, cu_text, du_text, ru_text, get_config_map_content, sync_value,
}
use oai_k8s.SplitController.Values.{KeepsConfigMaps, sync_value-Holds, get_pod-keeps}
use oai_k8s.SplitController.Pods.{get_pod}
use oai_k8s.SplitController.Observed.{address_of}
use oai_k8s.Replacer.{Files, no_values, get_content}
use oai_k8s.Replacer.Filled.{
  AllPlain, Reads, entries, text_of, values_for, waits_of, get_content-text_of,
}

pod_address-address_of : (pod : Option Pod) → pod_address pod ≡ address_of pod ""
pod_address-address_of none = refl
pod_address-address_of (some pod) = refl

module _ {World Selector Quantity : Type 0} (env : SplitEnv World Selector Quantity)
    (owner : Split) where
  -- The address of the pod that is listed for a piece, empty where there is none.
  abbrev pub Gives : SplitPiece → World → String → Type 0
  Gives split w a =
      (pod : Option Pod) × ((get_pod env owner split w).0 ≡ ok pod) × (a ≡ address_of pod "")

  -- Which pods the addresses of a piece are of: local is its own, north that of the piece before it and south that of the
  -- piece behind it, in the order CU, DU, RU.
  abbrev pub Neighbours : SplitPiece → World → (north local south : String) → Type 0
  Neighbours cu w north local south = Gives cu w local × Gives du w south
  Neighbours du w north local south = Gives cu w north × Gives du w local × Gives ru w south
  Neighbours ru w north local south = Gives du w north × Gives ru w local

  module _ (K : KeepsConfigMaps env) where
    address-Gives :
        (c : String) (split : SplitPiece) (a : String) (w w' : World)
        → address env c owner split w ≡ (ok a, w')
        → Gives split w a × (w' ≡ w)
    unfolding address
    address-Gives c split a w w' h =
        let (pod, v, e, f) =
          >>=-eq-ok (with_context c (get_pod env owner split)) (λ pod. pure (pod_address pod)) w
            h in
        let listed = with_context-eq-ok c (get_pod env owner split) w e in
        let x : ok (pod_address pod) ≡ ok a = ap (λ y. y.0) f in
        let same : pod_address pod ≡ a = cc in
        (
          (pod, ap (λ y. y.0) listed, sym same ∙ pod_address-address_of pod),
          sym (ap (λ y. y.1) f) ∙ sym (ap (λ y. y.1) listed) ∙ get_pod-keeps env K owner split w,
        )

module _ {World Selector Quantity : Type 0} (env : SplitEnv World Selector Quantity) (owner : Split)
    (Plain : String → Type 0) (core_plain : Plain owner.spec.core_ip)
    (addresses_plain : (c : String) (split : SplitPiece) (a : String) (w w' : World)
      → address env c owner split w ≡ (ok a, w')
      → Plain a) where
  -- The content of a piece is the text of three addresses, of which a piece may not use the first or the last.
  record IsMade (split : SplitPiece) (text : String) (w : World) : Type 0 where
    north : String
    local : String
    south : String
    text_eq : text ≡ text_of split owner north local south
    plain : AllPlain Plain (entries split owner north local south)
    neighbours : Neighbours env owner split w north local south

  content-IsMade :
      (K : KeepsConfigMaps env)
      → (split : SplitPiece) (text : String) (w w' : World)
      → get_config_map_content env split owner w ≡ (ok text, w')
      → IsMade split text w
  unfolding get_config_map_content
  content-IsMade K cu text w w' h =
      let first = address env "error getting CU config map content from cu pod" owner cu in
      let second = address env "error getting CU config map content from du pod" owner du in
      let (l, w₁, e₁, h₁) = >>=-eq-ok first (λ l. second >>= λ s. pure (cu_text owner l s)) w h in
      let (s, w₂, e₂, h₂) = >>=-eq-ok second (λ s. pure (cu_text owner l s)) w₁ h₁ in
      let (g₁, k₁) = address-Gives env owner K _ cu l w w₁ e₁ in
      let (g₂, k₂) = address-Gives env owner K _ du s w₁ w₂ e₂ in
      record {
        north = "";
        local = l;
        south = s;
        text_eq = let e : ok (cu_text owner l s) ≡ ok text = ap (λ x. x.0) h₂ in cc;
        plain =
            (core_plain, (addresses_plain _ cu l w w₁ e₁, (addresses_plain _ du s w₁ w₂ e₂, tt)));
        neighbours = (g₁, subst (λ x. Gives env owner du x s) k₁ g₂);
      }
  content-IsMade K du text w w' h =
      let first = address env "error getting DU config map content from cu pod" owner cu in
      let second = address env "error getting DU config map content from du pod" owner du in
      let third = address env "error getting DU config map content from ru pod" owner ru in
      let (n, w₁, e₁, h₁) =
        >>=-eq-ok first (λ n. second >>= λ l. third >>= λ s. pure (du_text n l s)) w h in
      let (l, w₂, e₂, h₂) = >>=-eq-ok second (λ l. third >>= λ s. pure (du_text n l s)) w₁ h₁ in
      let (s, w₃, e₃, h₃) = >>=-eq-ok third (λ s. pure (du_text n l s)) w₂ h₂ in
      let (g₁, k₁) = address-Gives env owner K _ cu n w w₁ e₁ in
      let (g₂, k₂) = address-Gives env owner K _ du l w₁ w₂ e₂ in
      let (g₃, k₃) = address-Gives env owner K _ ru s w₂ w₃ e₃ in
      record {
        north = n;
        local = l;
        south = s;
        text_eq = let e : ok (du_text n l s) ≡ ok text = ap (λ x. x.0) h₃ in cc;
        plain = (
          addresses_plain _ cu n w w₁ e₁,
          (addresses_plain _ du l w₁ w₂ e₂, (addresses_plain _ ru s w₂ w₃ e₃, tt)),
        );
        neighbours = (
          g₁,
          subst (λ x. Gives env owner du x l) k₁ g₂,
          subst (λ x. Gives env owner ru x s) (k₂ ∙ k₁) g₃,
        );
      }
  content-IsMade K ru text w w' h =
      let first = address env "error getting RU config map content from du pod" owner du in
      let second = address env "error getting RU config map content from ru pod" owner ru in
      let (n, w₁, e₁, h₁) = >>=-eq-ok first (λ n. second >>= λ l. pure (ru_text n l)) w h in
      let (l, w₂, e₂, h₂) = >>=-eq-ok second (λ l. pure (ru_text n l)) w₁ h₁ in
      let (g₁, k₁) = address-Gives env owner K _ du n w w₁ e₁ in
      let (g₂, k₂) = address-Gives env owner K _ ru l w₁ w₂ e₂ in
      record {
        north = n;
        local = l;
        south = "";
        text_eq = let e : ok (ru_text n l) ≡ ok text = ap (λ x. x.0) h₂ in cc;
        plain = (addresses_plain _ du n w w₁ e₁, (addresses_plain _ ru l w₁ w₂ e₂, tt));
        neighbours = (g₁, subst (λ x. Gives env owner ru x l) k₁ g₂);
      }

  -- With an API server that keeps what it was given, plain addresses, and the config map of the piece
  -- mounted where the replacer reads: behind a successful synchronisation of the values of a piece, the replacer for
  -- the piece gets, from the first load on, the addresses of the pods that are listed, its own as the local one
  -- and those of the pieces before and behind it as north and south, if it waits
  -- for none of them any more, and waits for ever if one that it needs is empty.
  pub sync_value-get_content :
      (K : KeepsConfigMaps env) {Disk : Type 0} (files : Files Disk) (R : Reads files Plain)
      (split : SplitPiece) (w w' : World) (disk : Disk) (fuel : ℕ)
      → sync_value env owner split w ≡ (ok tt, w')
      → ((cm : ConfigMap)
          → (env.get_config_map (get_split_object_key owner split) w').0 ≡ ok cm
          → files.read_values disk ≡ (ok (value_of "values" cm), disk))
      → (n l s : String) × ((get_config_map_content env split owner w).0
          ≡ ok (text_of split owner n l s))
        × Neighbours env owner split w n l s
        × (let v = values_for split owner n l s in
            get_content files (piece_text split) (suc fuel) no_values disk
            ≡ (if waits_of split v then out_of_fuel else ok v, disk))
  sync_value-get_content K files R split w w' disk fuel h mounted =
      let (text, e, (cm, there, value)) = sync_value-Holds env K owner split w w' h in
      let c =
        content-IsMade K split text w (get_config_map_content env split owner w).1
          (ap (λ r. (r, (get_config_map_content env split owner w).1)) e) in
      (
        c.north,
        c.local,
        c.south,
        e ∙ ap ok c.text_eq,
        c.neighbours,
        get_content-text_of files R split owner c.north c.local c.south disk fuel c.plain
            (mounted cm there ∙ ap (λ (t : String). (ok t, disk)) (value ∙ c.text_eq)),
      )
