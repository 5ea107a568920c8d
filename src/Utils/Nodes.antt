-- ===== src/Utils/Nodes.antt =====
-- `HasResources` and `AllocateResources` of a node.
use oai_k8s.Common.{◌≡◌, Bool, true, ◌&&◌, ◌||◌, arith, if◌then◌else◌}
use oai_k8s.Common.{Result, ok, err, node_short}
use oai_k8s.Common.Int.{pos, ltb_ℤ}
use oai_k8s.Extern.{Platform, Laws}
use oai_k8s.Utils.{Node}

module _ (P : Platform) where
  open P use {Quantity, value, sub_quantity}

  unfoldable pub has_resources : Node Quantity → Quantity → Quantity → Bool
  has_resources node memory cpu =
      ltb_ℤ (value memory) (value node.resources.memory_available)
      && ltb_ℤ (value cpu) (value node.resources.cpu_available)

  -- Both quantities are taken off before the test, also where the call then fails.
  unfoldable pub allocate_resources :
      Node Quantity → Quantity → Quantity → Result (Unit {0}) × Node Quantity
  allocate_resources node memory cpu =
      let m = sub_quantity node.resources.memory_available memory in
      let c = sub_quantity node.resources.cpu_available cpu in
      let resources' = record (node.resources) { memory_available = m; cpu_available = c } in
      let failed = ltb_ℤ (value c) (pos 0) || ltb_ℤ (value m) (pos 0) in
      (
        if failed then err (node_short (value c) (value m)) else ok tt,
        record node { resources = resources' },
      )

  -- What `HasResources` allows, `AllocateResources` grants.
  pub allocate_resources-has_resources :
      Laws P
      → (node : Node Quantity) (memory cpu : Quantity) → has_resources node memory cpu ≡ true
      → (allocate_resources node memory cpu).0 ≡ ok tt
  unfolding has_resources allocate_resources
  allocate_resources-has_resources L node memory cpu h = ground (
    arith,
    L.sub_of_value_lt node.resources.memory_available memory,
    L.sub_of_value_lt node.resources.cpu_available cpu,
  )
