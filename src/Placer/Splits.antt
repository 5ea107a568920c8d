-- ===== src/Placer/Splits.antt =====
-- `syncSplits` and its parts (operator/controllers/splitsplacer_controller.go).
use oai_k8s.Common.{String, Option, none, some, List, [], ◌∷◌}
use oai_k8s.Common.{if◌then◌else◌}
use oai_k8s.Common.{Action, pure, ◌>>=◌, ◌>>◌, with_context}
use oai_k8s.Extern.{Platform}
use oai_k8s.Api.{ChainPosition}
use oai_k8s.Cluster.{Split, SplitsPlacer}
use oai_k8s.Cluster.Getters.{get_if_exists}
use oai_k8s.Placer.Defs.{PlacerEnv, is_unplaced}

unfoldable pub split_template : ChainPosition → String → String → Split
split_template ru namespace core_ip = record {
  key = record { namespace = namespace; name = ru.split_name };
  owners = [];
  spec = record {
    core_ip = core_ip;
    ru_node = ru.ru_node;
    du_node = ru.du_node;
    cu_node = ru.cu_node;
  };
  status = record {
    cu_node = "";
    cu_ip = "";
    du_node = "";
    du_ip = "";
    ru_node = "";
    ru_ip = "";
    state = "";
  };
}

module _ {P : Platform} {World : Type 0} (env : PlacerEnv P World) where
  open P use {Float, Quantity}
  open env use {
    client, parse_topology, parse_disaggregations, parse_quantity, format_float, elapsed,
    error_text, orders,
  }

  unfoldable pub create_owned_split : SplitsPlacer → Split → Action World (Unit {0})
  create_owned_split owner template = do
    split ←
        with_context "error setting split owner reference" (client.set_split_owner owner template)
    with_context "error creating split" (client.create_split split)

  abbrev pub unless_exists : SplitsPlacer → Split → Option Split → Action World (Unit {0})
  unless_exists owner template (some split) = pure tt
  unless_exists owner template none = create_owned_split owner template

  -- One round of the loop of `syncSplits`.
  unfoldable pub sync_split : SplitsPlacer → ChainPosition → Action World (Unit {0})
  sync_split owner ru =
      let template = split_template ru owner.key.namespace owner.spec.core_ip in
      let sync =
        with_context "error checking if split exists"
          (get_if_exists "error getting split" (client.get_split template.key))
        >>= unless_exists owner template in
      if is_unplaced ru then pure tt else sync

  unfoldable pub sync_splits : SplitsPlacer → List ChainPosition → Action World (Unit {0})
  unfolding sync_split create_owned_split split_template
  sync_splits owner [] = pure tt
  sync_splits owner (ru ∷ rest) = do sync_split owner ru; sync_splits owner rest
