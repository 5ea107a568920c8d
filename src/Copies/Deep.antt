-- ===== src/Copies/Deep.antt =====
-- The copies of operator/api/v1beta1/zz_generated.deepcopy.go are deep: they share no memory with what they were made of.
use oai_k8s.Common.{String, ◌≡◌, refl, ap, some}
use oai_k8s.Api.{TopologyLink, NetworkRequirements}
use oai_k8s.Copies.Memory.{
  Reading, Copying, give, pure, read_nil, read_slice, read_pointer, read_map, copy_nil, copy_slice,
  copy_pointer, copy_map,
}
use oai_k8s.Copies.Separate.{IsCopy, scalar-IsCopy}
use oai_k8s.Copies.Parts.{part-Copied, pair-Copied, parts-Copied}
use oai_k8s.Copies.Rules.{nil-IsCopy, slice-IsCopy, pointer-IsCopy, map-IsCopy}
use oai_k8s.Copies.Objects.{Foreign, MaybeSlice, MaybeAddress}
use oai_k8s.Copies.Blocks.{Block}
use oai_k8s.Copies.Blocks
use oai_k8s.Copies.Generated.{
  MetaCopies, strings_into, chain_position_into, protocol_stack_into, requirements_into,
  disaggregation_into, node_into, topology_into, splits_placer_spec_into, splits_placer_status_into,
  split_into, splits_placer_into,
}
use oai_k8s.Copies.Values.{
  with_path, with_interfaces, stack_of, disaggregation_of, topology_of, with_rus, with_bandwidth,
  with_meta, placer_of, read_strings, read_chain_position, read_protocol_stack, read_requirements,
  read_disaggregation, read_node, read_nodes, read_links, read_topology, read_positions, read_spec,
  read_bandwidth, read_status, read_split, read_splits_placer,
}

pub some-inj : {A : Type 0} {a b : A} → some a ≡ some b → a ≡ b
some-inj e = cc

module _ (F : Foreign) where
  strings-IsCopy : IsCopy (read_strings F) (strings_into F)
  unfolding read_strings strings_into
  strings-IsCopy =
      let r : String → Reading (Block F) String = λ s. give s in
      let c : String → Copying (Block F) String = λ s. pure s in
      nil-IsCopy (read_slice (Blocks.strings_cell F) r) (copy_slice (Blocks.strings_cell F) c)
        (slice-IsCopy (Blocks.strings_cell F) r c scalar-IsCopy)

  chain_position-IsCopy : IsCopy (read_chain_position F) (chain_position_into F)
  unfolding read_chain_position chain_position_into
  chain_position-IsCopy x =
      part-Copied (read_strings F) (strings_into F) (λ p. record x { path = p }) (with_path x)
        (read_chain_position F) (λ a b e. ap (λ r. r.path) (some-inj e)) (λ p h. refl) x.path
        (strings-IsCopy x.path)

  node-IsCopy : IsCopy (read_node F) (node_into F)
  unfolding read_node node_into
  node-IsCopy x =
      part-Copied (read_strings F) (strings_into F) (λ p. record x { interfaces = p })
        (with_interfaces x) (read_node F) (λ a b e. ap (λ r. r.interfaces) (some-inj e))
        (λ p h. refl) x.interfaces (strings-IsCopy x.interfaces)

  requirements-IsCopy : IsCopy (read_requirements F) (requirements_into F)
  unfolding read_requirements requirements_into
  requirements-IsCopy =
      let r : NetworkRequirements F.Float → Reading (Block F) (NetworkRequirements F.Float) =
        λ s. give s in
      let c : NetworkRequirements F.Float → Copying (Block F) (NetworkRequirements F.Float) =
        λ s. pure s in
      nil-IsCopy (read_pointer (Blocks.requirements_cell F) r)
        (copy_pointer (Blocks.requirements_cell F) c)
        (pointer-IsCopy (Blocks.requirements_cell F) r c scalar-IsCopy)

  protocol_stack-IsCopy : IsCopy (read_protocol_stack F) (protocol_stack_into F)
  unfolding read_protocol_stack protocol_stack_into
  protocol_stack-IsCopy x =
      let one : Unit {0} → Reading (Block F) (Unit {0}) = λ u. give u in
      let same : Unit {0} → Copying (Block F) (Unit {0}) = λ u. pure u in
      parts-Copied (read_strings F) (strings_into F) (read_strings F) (strings_into F)
        (read_strings F) (strings_into F) one same (λ a b c _. stack_of a b c)
        (λ a b c _. stack_of a b c) (read_protocol_stack F)
        (λ a a' b b' c c' d d' e.
          let f = some-inj e in (ap (λ r. r.cu) f, ap (λ r. r.du) f, ap (λ r. r.ru) f, refl))
        (λ a b c d h. refl) x.cu x.du x.ru tt (strings-IsCopy x.cu) (strings-IsCopy x.du)
        (strings-IsCopy x.ru) (scalar-IsCopy tt)

  pub disaggregation-IsCopy : IsCopy (read_disaggregation F) (disaggregation_into F)
  unfolding read_disaggregation disaggregation_into
  disaggregation-IsCopy x =
      parts-Copied (read_protocol_stack F) (protocol_stack_into F) (read_requirements F)
        (requirements_into F) (read_requirements F) (requirements_into F) (read_requirements F)
        (requirements_into F) disaggregation_of disaggregation_of (read_disaggregation F)
        (λ a a' b b' c c' d d' e.
          let f = some-inj e in
          (
            ap (λ r. r.protocol_stack) f,
            ap (λ r. r.backhaul) f,
            ap (λ r. r.midhaul) f,
            ap (λ r. r.fronthaul) f,
          ))
        (λ a b c d h. refl) x.protocol_stack x.backhaul x.midhaul x.fronthaul
        (protocol_stack-IsCopy x.protocol_stack) (requirements-IsCopy x.backhaul)
        (requirements-IsCopy x.midhaul) (requirements-IsCopy x.fronthaul)

  abbrev nodes_into : MaybeAddress → Copying (Block F) MaybeAddress
  nodes_into =
      copy_nil (
        copy_map (Blocks.nodes_cell F) (copy_nil (copy_pointer (Blocks.node_cell F) (node_into F))))

  nodes-IsCopy : IsCopy (read_nodes F) nodes_into
  unfolding read_nodes
  nodes-IsCopy =
      let r = read_pointer (Blocks.node_cell F) (read_node F) in
      let c = copy_pointer (Blocks.node_cell F) (node_into F) in
      nil-IsCopy (read_map (Blocks.nodes_cell F) (read_nil r))
        (copy_map (Blocks.nodes_cell F) (copy_nil c))
        (map-IsCopy (Blocks.nodes_cell F) (read_nil r) (copy_nil c) (
          nil-IsCopy r c
            (pointer-IsCopy (Blocks.node_cell F) (read_node F) (node_into F) node-IsCopy)))

  abbrev links_into : MaybeAddress → Copying (Block F) MaybeAddress
  links_into =
      copy_nil (
        copy_map (Blocks.links_cell F) (copy_nil (copy_pointer (Blocks.link_cell F) (λ l. pure l))))

  links-IsCopy : IsCopy (read_links F) links_into
  unfolding read_links
  links-IsCopy =
      let r : TopologyLink F.Float → Reading (Block F) (TopologyLink F.Float) = λ s. give s in
      let c : TopologyLink F.Float → Copying (Block F) (TopologyLink F.Float) = λ s. pure s in
      let r' = read_pointer (Blocks.link_cell F) r in
      let c' = copy_pointer (Blocks.link_cell F) c in
      nil-IsCopy (read_map (Blocks.links_cell F) (read_nil r'))
        (copy_map (Blocks.links_cell F) (copy_nil c'))
        (map-IsCopy (Blocks.links_cell F) (read_nil r') (copy_nil c')
          (nil-IsCopy r' c' (pointer-IsCopy (Blocks.link_cell F) r c scalar-IsCopy)))

  pub topology-IsCopy : IsCopy (read_topology F) (topology_into F)
  unfolding read_topology topology_into
  topology-IsCopy x =
      pair-Copied (read_nodes F) nodes_into (read_links F) links_into topology_of topology_of
        (read_topology F)
        (λ a a' b b' e. let f = some-inj e in (ap (λ r. r.nodes) f, ap (λ r. r.links) f))
        (λ a b h. refl) x.nodes x.links (nodes-IsCopy x.nodes) (links-IsCopy x.links)

  abbrev positions_into : MaybeSlice → Copying (Block F) MaybeSlice
  positions_into = copy_nil (
      copy_slice (Blocks.positions_cell F)
        (copy_nil (copy_pointer (Blocks.position_cell F) (chain_position_into F))))

  positions-IsCopy : IsCopy (read_positions F) positions_into
  unfolding read_positions
  positions-IsCopy =
      let r = read_pointer (Blocks.position_cell F) (read_chain_position F) in
      let c = copy_pointer (Blocks.position_cell F) (chain_position_into F) in
      nil-IsCopy (read_slice (Blocks.positions_cell F) (read_nil r))
        (copy_slice (Blocks.positions_cell F) (copy_nil c))
        (slice-IsCopy (Blocks.positions_cell F) (read_nil r) (copy_nil c) (
          nil-IsCopy r c (
            pointer-IsCopy (Blocks.position_cell F) (read_chain_position F) (chain_position_into F)
              chain_position-IsCopy)))

  spec-IsCopy : IsCopy (read_spec F) (splits_placer_spec_into F)
  unfolding read_spec splits_placer_spec_into
  spec-IsCopy x =
      part-Copied (read_positions F) positions_into (λ p. record x { rus = p }) (with_rus x)
        (read_spec F) (λ a b e. ap (λ r. r.rus) (some-inj e)) (λ p h. refl) x.rus
        (positions-IsCopy x.rus)

  abbrev bandwidth_into : MaybeAddress → Copying (Block F) MaybeAddress
  bandwidth_into = copy_nil (copy_map (Blocks.texts_cell F) (λ text. pure text))

  bandwidth-IsCopy : IsCopy (read_bandwidth F) bandwidth_into
  unfolding read_bandwidth
  bandwidth-IsCopy =
      let r : String → Reading (Block F) String = λ s. give s in
      let c : String → Copying (Block F) String = λ s. pure s in
      nil-IsCopy (read_map (Blocks.texts_cell F) r) (copy_map (Blocks.texts_cell F) c)
        (map-IsCopy (Blocks.texts_cell F) r c scalar-IsCopy)

  status-IsCopy : IsCopy (read_status F) (splits_placer_status_into F)
  unfolding read_status splits_placer_status_into
  status-IsCopy x =
      part-Copied (read_bandwidth F) bandwidth_into (λ p. record x { remaining_bandwidth = p })
        (with_bandwidth x) (read_status F) (λ a b e. ap (λ r. r.remaining_bandwidth) (some-inj e))
        (λ p h. refl) x.remaining_bandwidth (bandwidth-IsCopy x.remaining_bandwidth)

  module _ (M : MetaCopies F) {ObjectValue ListValue : Type 0}
      (read_object_meta : F.ObjectMeta → Reading (Block F) ObjectValue)
      (read_list_meta : F.ListMeta → Reading (Block F) ListValue)
      (object_meta-IsCopy : IsCopy read_object_meta M.object_meta_into)
      (list_meta-IsCopy : IsCopy read_list_meta M.list_meta_into) where
    pub split-IsCopy : IsCopy (read_split F read_object_meta read_list_meta) (split_into F M)
    unfolding read_split split_into
    split-IsCopy x =
        part-Copied read_object_meta M.object_meta_into (λ p. record x { object_meta = p })
          (with_meta x) (read_split F read_object_meta read_list_meta)
          (λ a b e. ap (λ r. r.object_meta) (some-inj e)) (λ p h. refl) x.object_meta
          (object_meta-IsCopy x.object_meta)

    pub splits_placer-IsCopy :
        IsCopy (read_splits_placer F read_object_meta read_list_meta) (splits_placer_into F M)
    unfolding read_splits_placer splits_placer_into
    splits_placer-IsCopy x =
        let one : Unit {0} → Reading (Block F) (Unit {0}) = λ u. give u in
        let same : Unit {0} → Copying (Block F) (Unit {0}) = λ u. pure u in
        parts-Copied read_object_meta M.object_meta_into (read_spec F) (splits_placer_spec_into F)
          (read_status F) (splits_placer_status_into F) one same
          (λ a b c _. placer_of x.type_meta a b c) (λ a b c _. placer_of x.type_meta a b c)
          (read_splits_placer F read_object_meta read_list_meta)
          (λ a a' b b' c c' d d' e.
            let f = some-inj e in
            (ap (λ r. r.object_meta) f, ap (λ r. r.spec) f, ap (λ r. r.status) f, refl))
          (λ a b c d h. refl) x.object_meta x.spec x.status tt (object_meta-IsCopy x.object_meta)
          (spec-IsCopy x.spec) (status-IsCopy x.status) (scalar-IsCopy tt)
