-- ===== src/Copies/Methods.antt =====
-- The methods `DeepCopy` and `DeepCopyObject` of operator/api/v1beta1/zz_generated.deepcopy.go. They get a pointer that may be
-- nil, and give a pointer to a copy.
use oai_k8s.Copies.Memory.{Copying}
use oai_k8s.Copies.Objects.{Foreign, MaybeAddress}
use oai_k8s.Copies.Blocks.{Block}
use oai_k8s.Copies.Blocks
use oai_k8s.Copies.Generated.{
  MetaCopies, deep_copy, deep_copy_object, chain_position_into, connection_into,
  network_requirements_into, protocol_stack_into, disaggregation_into, link_into, node_into,
  topology_into, splits_placer_spec_into, splits_placer_status_into, split_spec_into,
  split_status_into, split_into, splits_placer_into, split_list_into, splits_placer_list_into,
}

module _ (F : Foreign) where
  unfoldable pub chain_position_copy : MaybeAddress → Copying (Block F) MaybeAddress
  unfolding deep_copy chain_position_into
  chain_position_copy = deep_copy (Blocks.position_cell F) (chain_position_into F)

  unfoldable pub connection_copy : MaybeAddress → Copying (Block F) MaybeAddress
  unfolding deep_copy connection_into
  connection_copy = deep_copy (Blocks.connection_cell F) (connection_into F)

  unfoldable pub disaggregation_copy : MaybeAddress → Copying (Block F) MaybeAddress
  unfolding deep_copy disaggregation_into
  disaggregation_copy = deep_copy (Blocks.disaggregation_cell F) (disaggregation_into F)

  unfoldable pub link_copy : MaybeAddress → Copying (Block F) MaybeAddress
  unfolding deep_copy link_into
  link_copy = deep_copy (Blocks.link_cell F) (link_into F)

  unfoldable pub network_requirements_copy : MaybeAddress → Copying (Block F) MaybeAddress
  unfolding deep_copy network_requirements_into
  network_requirements_copy = deep_copy (Blocks.requirements_cell F) (network_requirements_into F)

  unfoldable pub node_copy : MaybeAddress → Copying (Block F) MaybeAddress
  unfolding deep_copy node_into
  node_copy = deep_copy (Blocks.node_cell F) (node_into F)

  unfoldable pub protocol_stack_copy : MaybeAddress → Copying (Block F) MaybeAddress
  unfolding deep_copy protocol_stack_into
  protocol_stack_copy = deep_copy (Blocks.stack_cell F) (protocol_stack_into F)

  unfoldable pub split_spec_copy : MaybeAddress → Copying (Block F) MaybeAddress
  unfolding deep_copy split_spec_into
  split_spec_copy = deep_copy (Blocks.split_spec_cell F) (split_spec_into F)

  unfoldable pub split_status_copy : MaybeAddress → Copying (Block F) MaybeAddress
  unfolding deep_copy split_status_into
  split_status_copy = deep_copy (Blocks.split_status_cell F) (split_status_into F)

  unfoldable pub splits_placer_spec_copy : MaybeAddress → Copying (Block F) MaybeAddress
  unfolding deep_copy splits_placer_spec_into
  splits_placer_spec_copy = deep_copy (Blocks.placer_spec_cell F) (splits_placer_spec_into F)

  unfoldable pub splits_placer_status_copy : MaybeAddress → Copying (Block F) MaybeAddress
  unfolding deep_copy splits_placer_status_into
  splits_placer_status_copy = deep_copy (Blocks.placer_status_cell F) (splits_placer_status_into F)

  unfoldable pub topology_copy : MaybeAddress → Copying (Block F) MaybeAddress
  unfolding deep_copy topology_into
  topology_copy = deep_copy (Blocks.topology_cell F) (topology_into F)

  module _ (M : MetaCopies F) where
    unfoldable pub split_copy : MaybeAddress → Copying (Block F) MaybeAddress
    unfolding deep_copy split_into
    split_copy = deep_copy (Blocks.split_cell F) (split_into F M)

    unfoldable pub split_copy_object : MaybeAddress → Copying (Block F) MaybeAddress
    unfolding deep_copy_object split_into
    split_copy_object = deep_copy_object (Blocks.split_cell F) (split_into F M)

    unfoldable pub split_list_copy : MaybeAddress → Copying (Block F) MaybeAddress
    unfolding deep_copy split_list_into
    split_list_copy = deep_copy (Blocks.split_list_cell F) (split_list_into F M)

    unfoldable pub split_list_copy_object : MaybeAddress → Copying (Block F) MaybeAddress
    unfolding deep_copy_object split_list_into
    split_list_copy_object = deep_copy_object (Blocks.split_list_cell F) (split_list_into F M)

    unfoldable pub splits_placer_copy : MaybeAddress → Copying (Block F) MaybeAddress
    unfolding deep_copy splits_placer_into
    splits_placer_copy = deep_copy (Blocks.placer_cell F) (splits_placer_into F M)

    unfoldable pub splits_placer_copy_object : MaybeAddress → Copying (Block F) MaybeAddress
    unfolding deep_copy_object splits_placer_into
    splits_placer_copy_object = deep_copy_object (Blocks.placer_cell F) (splits_placer_into F M)

    unfoldable pub splits_placer_list_copy : MaybeAddress → Copying (Block F) MaybeAddress
    unfolding deep_copy splits_placer_list_into
    splits_placer_list_copy = deep_copy (Blocks.placer_list_cell F) (splits_placer_list_into F M)

    unfoldable pub splits_placer_list_copy_object : MaybeAddress → Copying (Block F) MaybeAddress
    unfolding deep_copy_object splits_placer_list_into
    splits_placer_list_copy_object =
        deep_copy_object (Blocks.placer_list_cell F) (splits_placer_list_into F M)
