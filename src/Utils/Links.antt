-- ===== src/Utils/Links.antt =====
-- `HasBandwidth` and `AllocateResources` of a link.
use oai_k8s.Common.{◌≡◌, Bool, true, arith, if◌then◌else◌, Result, ok, err, link_short}
use oai_k8s.Extern.{Platform, Laws}
use oai_k8s.Utils.{Link}

module _ (P : Platform) where
  open P use {Float, zero_float, sub_float, lt_float, ge_float}

  unfoldable pub has_bandwidth : Link Float → Float → Bool
  has_bandwidth v required = ge_float v.available_bandwidth required

  -- The bandwidth is taken off before the test, also where the call then fails.
  unfoldable pub allocate_resources : Link Float → Float → Result (Unit {0}) × Link Float
  allocate_resources v required =
      let left = sub_float v.available_bandwidth required in
      let v' = record v { available_bandwidth = left } in
      (if lt_float left zero_float then err (link_short v.link_name) else ok tt, v')

  -- What `HasBandwidth` allows, `AllocateResources` grants.
  pub allocate_resources-has_bandwidth :
      Laws P
      → (v : Link Float) (required : Float) → has_bandwidth v required ≡ true
      → (allocate_resources v required).0 ≡ ok tt
  unfolding has_bandwidth allocate_resources
  allocate_resources-has_bandwidth L v required h =
      ground (arith, L.sub_of_ge v.available_bandwidth required)
