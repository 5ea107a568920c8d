-- ===== src/SplitController/Observed.antt =====
-- What `syncStatus` writes into the status of a split.
use oai_k8s.Common.{String, ◌≡◌, refl, ap, sym, ◌∙◌, subst, Option, none, some, ◌↔◌}
use oai_k8s.Common.{Bool, true, false, ◌&&◌, ◌==◌, str_dec, arith}
use oai_k8s.Common.{
  Result, ok, ◌>>=◌, >>=-eq-ok, with_context, with_context-eq-ok, Bool-cases, inl, inr,
}
use oai_k8s.Cluster.{Split, SplitStatus}
use oai_k8s.SplitController.Defs.{SplitPiece, cu, du, ru, SplitEnv, Pod}
use oai_k8s.SplitController.Pods.{
  SplitSession, look_at, observe, see_pod, conclude, is_running, set_piece, state_text, get_pod,
  split_client,
}

-- No pod, or one that runs.
abbrev pub Fine : Option Pod → Type 0
Fine pod = (p : Pod) → pod ≡ some p → p.phase ≡ "Running"

abbrev pub fine : Option Pod → Bool
fine none = true
fine (some pod) = is_running pod

fine-Fine : (pod : Option Pod) → (fine pod ≡ true) ↔ Fine pod
fine-Fine none = (λ _ p e. cc, λ _. refl)
fine-Fine (some pod) = elim (str_dec pod.phase "Running") [
  | yes e ↦ (
    λ _ p h. let same : pod ≡ p = cc in subst (λ x. x.phase ≡ "Running") same e,
    λ _. ground (arith, e),
  )
  | no n ↦ (λ h. absurd (n (ground arith)), λ h. absurd (n (h pod refl)))
]

-- The fields of the piece come from its pod, and stay where there is none.
abbrev pub seen : SplitPiece → Option Pod → SplitStatus → SplitStatus
seen split none s = s
seen split (some pod) s = set_piece split pod s

abbrev pub looked_at : SplitPiece → Option Pod → Split → Split
looked_at split pod owner = record owner { status = seen split pod owner.status }

-- The node and the address of a pod, and what was there before where there is none.
abbrev pub node_of : Option Pod → String → String
node_of none before = before
node_of (some pod) before = pod.node_name

abbrev pub address_of : Option Pod → String → String
address_of none before = before
address_of (some pod) before = pod.pod_ip

-- The split with a state, and the nodes and addresses of three pods.
abbrev pub told : String → (cu_pod du_pod ru_pod : Option Pod) → Split → Split
told text cu_pod du_pod ru_pod o = record o {
  status = record {
    state = text;
    cu_node = node_of cu_pod o.status.cu_node;
    cu_ip = address_of cu_pod o.status.cu_ip;
    du_node = node_of du_pod o.status.du_node;
    du_ip = address_of du_pod o.status.du_ip;
    ru_node = node_of ru_pod o.status.ru_node;
    ru_ip = address_of ru_pod o.status.ru_ip;
  };
}

running_iff : (b : Bool) → (state_text b ≡ "Running") ↔ (b ≡ true)
unfolding str_dec
running_iff true = (λ _. refl, λ _. refl)
running_iff false = (λ h. let bad : false ≡ true = ap (λ x. x == "Running") h in cc, λ h. cc)

all_iff : (a b c : Bool) → ((a && b && c) ≡ true) ↔ (a ≡ true) × (b ≡ true) × (c ≡ true)
all_iff true true c = (λ h. (refl, refl, h), λ h. h.2)
all_iff true false c = (λ h. cc, λ h. h.1)
all_iff false b c = (λ h. cc, λ h. h.0)

ok_pair :
    {S A : Type 0} {a b : A} {t u : S}
    → ◌≡◌ {A = Result A × S} (ok a, t) (ok b, u)
    → (a ≡ b) × (t ≡ u)
ok_pair {S} {A} {a} {b} {t} {u} h = let e : ok a ≡ ok b = ap (λ x. x.0) h in (cc, ap (λ x. x.1) h)

abbrev pub with_state : String → Split → Split
with_state text owner = record owner { status = record (owner.status) { state = text } }

looked_at-told :
    (text : String) (cu_pod du_pod ru_pod : Option Pod) (o : Split)
    → with_state text (looked_at ru ru_pod (looked_at du du_pod (looked_at cu cu_pod o)))
      ≡ told text cu_pod du_pod ru_pod o
unfolding set_piece
looked_at-told text none none none o = refl
looked_at-told text none none (some r) o = refl
looked_at-told text none (some d) none o = refl
looked_at-told text none (some d) (some r) o = refl
looked_at-told text (some c) none none o = refl
looked_at-told text (some c) none (some r) o = refl
looked_at-told text (some c) (some d) none o = refl
looked_at-told text (some c) (some d) (some r) o = refl

module _ {World Selector Quantity : Type 0} (env : SplitEnv World Selector Quantity) where
  see_pod-eq-ok :
      (split : SplitPiece) (pod : Option Pod) (s s' : SplitSession World) {good : Bool}
      → see_pod env split pod s ≡ (ok good, s')
      → (good ≡ fine pod) × (s'.object ≡ looked_at split pod s.object)
  unfolding see_pod
  see_pod-eq-ok split none s s' h = let (e, f) = ok_pair h in (sym e, sym (ap (λ x. x.object) f))
  see_pod-eq-ok split (some pod) s s' {good} h = elim (Bool-cases (is_running pod)) [
    | inl t ↦
        let (e, f) = ok_pair (rw (t, see_pod) at h) in (sym e ∙ sym t, sym (ap (λ x. x.object) f))
    | inr u ↦
        let (e, f) = ok_pair (rw (u, see_pod) at h) in (sym e ∙ sym u, sym (ap (λ x. x.object) f))
  ]

  -- One look at a pod.
  record Looked (split : SplitPiece) (owner : Split) (pod : Option Pod) (object : Split)
      : Type 0 where
    before : World
    listed : (get_pod env owner split before).0 ≡ ok pod
    written : object ≡ looked_at split pod owner

  look_at-eq-ok :
      (context : String) (split : SplitPiece) (s s' : SplitSession World) {good : Bool}
      → look_at env context split s ≡ (ok good, s')
      → (pod : Option Pod) × (good ≡ fine pod) × Looked split s.object pod s'.object
  unfolding look_at
  look_at-eq-ok context split s s' h =
      let (pod, t, e, f) =
        >>=-eq-ok (with_context context (split_client env (get_pod env s.object split)))
          (see_pod env split) s h in
      let looked = with_context-eq-ok context (split_client env (get_pod env s.object split)) s e in
      let (r, w) = see_pod-eq-ok split pod t s' f in
      let same : s.object ≡ t.object = ap (λ x. x.1.object) looked in
      (
        pod,
        r,
        record {
          before = s.world;
          listed = ap (λ x. x.0) looked;
          written = w ∙ ap (looked_at split pod) (sym same);
        },
      )

  -- What the pods `cu_pod`, `du_pod` and `ru_pod`, listed in the worlds `w₁`, `w₂` and `w₃`, make of the
  -- object `o`.
  abbrev pub Observed :
      Split → Split → Option Pod → Option Pod → Option Pod → World → World → World → Type 0
  Observed o o' cu_pod du_pod ru_pod w₁ w₂ w₃ =
      ((get_pod env o cu w₁).0 ≡ ok cu_pod)
      × ((get_pod env o du w₂).0 ≡ ok du_pod)
      × ((get_pod env o ru w₃).0 ≡ ok ru_pod)
      × (o' ≡ told o'.status.state cu_pod du_pod ru_pod o)
      × ((o'.status.state ≡ "Running") ↔ (Fine cu_pod × Fine du_pod × Fine ru_pod))

  looks :
      (o o₁ o₂ o₃ o' : Split) (a b c : Bool) (cu_pod du_pod ru_pod : Option Pod)
      (l₁ : Looked cu o cu_pod o₁) (l₂ : Looked du o₁ du_pod o₂) (l₃ : Looked ru o₂ ru_pod o₃)
      → a ≡ fine cu_pod
      → b ≡ fine du_pod
      → c ≡ fine ru_pod
      → o' ≡ with_state (state_text (a && b && c)) o₃
      → Observed o o' cu_pod du_pod ru_pod l₁.before l₂.before l₃.before
  unfolding get_pod
  looks o o₁ o₂ o₃ o' a b c cu_pod du_pod ru_pod l₁ l₂ l₃ r₁ r₂ r₃ end =
      let second = l₂.written ∙ ap (looked_at du du_pod) l₁.written in
      let third = l₃.written ∙ ap (looked_at ru ru_pod) second in
      let state = ap (λ o. o.status.state) end in
      (
        l₁.listed,
        ap (λ o. (get_pod env o du l₂.before).0) (sym l₁.written) ∙ l₂.listed,
        ap (λ o. (get_pod env o ru l₃.before).0) (sym second) ∙ l₃.listed,
        end
            ∙ ap (with_state (state_text (a && b && c))) third
            ∙ ap
                (λ t.
                  with_state t (looked_at ru ru_pod (looked_at du du_pod (looked_at cu cu_pod o))))
                (sym state)
            ∙ looked_at-told o'.status.state cu_pod du_pod ru_pod o,
        (
          λ h.
              let good = (running_iff (a && b && c)).0 (sym state ∙ h) in
              let (x, y, z) = (all_iff a b c).0 good in
              (
                (fine-Fine cu_pod).0 (sym r₁ ∙ x),
                (fine-Fine du_pod).0 (sym r₂ ∙ y),
                (fine-Fine ru_pod).0 (sym r₃ ∙ z),
              ),
          λ (x, y, z).
              state
              ∙ (running_iff (a && b && c)).1 (
                  (all_iff a b c).1 (
                    r₁ ∙ (fine-Fine cu_pod).1 x,
                    r₂ ∙ (fine-Fine du_pod).1 y,
                    r₃ ∙ (fine-Fine ru_pod).1 z,
                  )),
        ),
      )

  -- When the pods were looked at without error, a pod or none was listed for each piece; the nodes and addresses in
  -- the status are those of the pods that are there, each in the fields of its piece, as before where there is none; nothing
  -- else of the split has changed; and the state is "Running" exactly where all
  -- pods that are there run.
  pub observe-status :
      (s s' : SplitSession World)
      → observe env s ≡ (ok tt, s')
      → (cu_pod du_pod ru_pod : Option Pod) × (w₁ w₂ w₃ : World) × Observed s.object s'.object
          cu_pod du_pod ru_pod w₁ w₂ w₃
  unfolding observe
  observe-status s s' h =
      let rest₂ = λ (a b : Bool). look_at env "error getting ru pod" ru >>= conclude env a b in
      let rest₁ = λ (a : Bool). look_at env "error getting du pod" du >>= rest₂ a in
      let (a, s₁, e₁, h₁) = >>=-eq-ok (look_at env "error getting cu pod" cu) rest₁ s h in
      let (b, s₂, e₂, h₂) = >>=-eq-ok (look_at env "error getting du pod" du) (rest₂ a) s₁ h₁ in
      let (c, s₃, e₃, h₃) =
        >>=-eq-ok (look_at env "error getting ru pod" ru) (conclude env a b) s₂ h₂ in
      let (cu_pod, r₁, l₁) = look_at-eq-ok "error getting cu pod" cu s s₁ e₁ in
      let (du_pod, r₂, l₂) = look_at-eq-ok "error getting du pod" du s₁ s₂ e₂ in
      let (ru_pod, r₃, l₃) = look_at-eq-ok "error getting ru pod" ru s₂ s₃ e₃ in
      (
        cu_pod,
        du_pod,
        ru_pod,
        l₁.before,
        l₂.before,
        l₃.before,
        looks s.object s₁.object s₂.object s₃.object s'.object a b c cu_pod du_pod ru_pod l₁ l₂ l₃
            r₁ r₂ r₃ (sym (ap (λ x. x.1.object) h₃)),
      )
