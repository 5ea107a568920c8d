-- ===== src/Tests/Copies.antt =====
-- Copies of a topology and of a disaggregation (operator/api/v1beta1/zz_generated.deepcopy.go).
use oai_k8s.Common.{
  String, ℕ, zero, suc, ◌≡◌, refl, ◌∙◌, Option, none, some, List, [], ◌∷◌, true, arith,
}
use oai_k8s.Common.Dict.{Dict}
use oai_k8s.Common.Int.{pos}
use oai_k8s.Copies.Memory.{
  Memory, Address, Slice, Reading, give, read_list, read_nil, read_slice, read_pointer, read_map,
  read_entry, and_then, part_of,
}
use oai_k8s.Copies.Separate.{Agree, and_then-some}
use oai_k8s.Copies.Rules.{and_then-load}
use oai_k8s.Copies.Objects.{Foreign, NodeOf, StoredTopology, StoredDisaggregation, ProtocolStackOf}
use oai_k8s.Copies.Blocks.{Block}
use oai_k8s.Copies.Blocks
use oai_k8s.Api.{NetworkRequirements}
use oai_k8s.Copies.Methods.{topology_copy, disaggregation_copy}
use oai_k8s.Copies.Values.{
  Texts, TopologyValue, read_topology, read_nodes, read_links, read_node, read_strings,
  with_interfaces, topology_of, DisaggregationValue, read_protocol_stack, stack_of,
  read_requirements, read_disaggregation, disaggregation_of,
}
use oai_k8s.Copies.Resources.{
  IsDeepCopy, read_at, topology_copy-IsDeepCopy, disaggregation_copy-IsDeepCopy,
}

abbrev pub plain : Foreign
plain = record {
  Float = ℕ;
  TypeMeta = String;
  ObjectMeta = String;
  ListMeta = String;
  Other = Unit {0};
}

abbrev pub held : List (Block plain) → Address → Option (Block plain)
held [] p = none
held (b ∷ rest) zero = some b
held (b ∷ rest) (suc p) = held rest p

abbrev graph : Memory (Block plain)
graph = record {
  next = 4;
  cell = held (
      Blocks.strings ("eth0" ∷ "eth1" ∷ [])
      ∷ Blocks.node (record {
        interfaces = some (record { array = 0; start = 1; size = 1 });
        core = true;
        hops = pos 2;
      })
      ∷ Blocks.nodes (("core", some 1) ∷ ("gone", none) ∷ [])
      ∷ Blocks.topology (record { nodes = some 2; links = none })
      ∷ []);
}

abbrev graph_value : TopologyValue plain
graph_value = record {
  nodes = some (
      ("core", some (record { interfaces = some ("eth1" ∷ []); core = true; hops = pos 2 }))
      ∷ ("gone", none)
      ∷ []);
  links = none;
}

abbrev interfaces : Slice
interfaces = record { array = 0; start = 1; size = 1 }

abbrev core_node : NodeOf (Option Slice)
core_node = record { interfaces = some interfaces; core = true; hops = pos 2 }

abbrev core_value : NodeOf Texts
core_value = record { interfaces = some ("eth1" ∷ []); core = true; hops = pos 2 }

abbrev read_one : Option Address → Reading (Block plain) (Option (NodeOf Texts))
read_one = read_nil (read_pointer (Blocks.node_cell plain) (read_node plain))

module _ (h : Memory (Block plain)) (g : Agree 0 4 graph h) where
  strings_lem : read_strings plain (some interfaces) h ≡ some (some ("eth1" ∷ []))
  unfolding read_strings read_nil read_slice
  strings_lem =
      let read : String → Reading (Block plain) String = λ s. give s in
      let cell = Blocks.strings_cell plain in
      and_then-some (read_slice cell read interfaces) (λ v. give (some v)) h
        (and_then-load cell 0 ("eth0" ∷ "eth1" ∷ []) (λ xs. read_list read (part_of interfaces xs))
          h (g 0 (omega arith) (omega arith)) refl)

  node_lem : read_one (some 1) h ≡ some (some core_value)
  unfolding read_nil read_pointer read_node
  node_lem =
      let cell = Blocks.node_cell plain in
      and_then-some (read_pointer cell (read_node plain) 1) (λ v. give (some v)) h
        (and_then-load cell 1 core_node (read_node plain) h (g 1 (omega arith) (omega arith)) (
          and_then-some (read_strings plain (some interfaces))
            (λ x. give (with_interfaces core_node x)) h strings_lem))

  entries_lem :
      read_list (read_entry read_one) (("core", some 1) ∷ ("gone", none) ∷ []) h
      ≡ some (("core", some core_value) ∷ ("gone", none) ∷ [])
  unfolding read_list read_entry read_nil
  entries_lem =
      let rest = read_list (read_entry read_one) (("gone", none) ∷ []) in
      and_then-some (read_entry read_one ("core", some 1))
        (λ v. and_then rest (λ vs. give (v ∷ vs))) h
        (and_then-some (read_one (some 1)) (λ v. give ("core", v)) h node_lem)

  nodes_lem : read_nodes plain (some 2) h ≡ some graph_value.nodes
  unfolding read_nodes read_nil read_map read_pointer
  nodes_lem =
      let cell = Blocks.nodes_cell plain in
      let entries : Dict (Option Address) = ("core", some 1) ∷ ("gone", none) ∷ [] in
      and_then-some (read_map cell read_one 2) (λ v. give (some v)) h
        (and_then-load cell 2 entries (read_list (read_entry read_one)) h
          (g 2 (omega arith) (omega arith)) entries_lem)

  graph_lem :
      read_at (Blocks.topology_cell plain) (read_topology plain) (some 3) h
      ≡ some (some graph_value)
  unfolding read_nil read_pointer read_topology read_links
  graph_lem =
      let cell = Blocks.topology_cell plain in
      let t : StoredTopology = record { nodes = some 2; links = none } in
      and_then-some (read_pointer cell (read_topology plain) 3) (λ v. give (some v)) h
        (and_then-load cell 3 t (read_topology plain) h (g 3 (omega arith) (omega arith)) (
          and_then-some (read_nodes plain (some 2))
            (λ nodes. and_then (read_links plain none) (λ links. give (topology_of nodes links))) h
            nodes_lem))

topology_copy-IsDeepCopy_example :
    IsDeepCopy
      (read_at (Blocks.topology_cell plain) (read_topology plain))
      (some 3)
      graph
      (some graph_value)
      (topology_copy plain (some 3) graph)
topology_copy-IsDeepCopy_example =
    topology_copy-IsDeepCopy plain (some 3) graph (some graph_value) graph_lem

-- A disaggregation that has two of its requirements at one address.
abbrev requirement : NetworkRequirements ℕ
requirement = record { latency = 1; bandwidth = 2 }

abbrev layers : Slice
layers = record { array = 0; start = 0; size = 1 }

abbrev stack : ProtocolStackOf (Option Slice)
stack = record { cu = some layers; du = none; ru = none }

abbrev shared : StoredDisaggregation
shared = record { protocol_stack = stack; backhaul = some 1; midhaul = none; fronthaul = some 1 }

abbrev shared_memory : Memory (Block plain)
shared_memory = record {
  next = 3;
  cell = held (
      Blocks.strings ("RRC" ∷ [])
      ∷ Blocks.requirements requirement
      ∷ Blocks.disaggregation shared
      ∷ []);
}

abbrev shared_value : DisaggregationValue plain
shared_value = record {
  protocol_stack = record { cu = some ("RRC" ∷ []); du = none; ru = none };
  backhaul = some requirement;
  midhaul = none;
  fronthaul = some requirement;
}

module _ (h : Memory (Block plain)) (g : Agree 0 3 shared_memory h) where
  layers_lem : read_strings plain (some layers) h ≡ some (some ("RRC" ∷ []))
  unfolding read_strings read_nil read_slice
  layers_lem =
      let read : String → Reading (Block plain) String = λ s. give s in
      let cell = Blocks.strings_cell plain in
      and_then-some (read_slice cell read layers) (λ v. give (some v)) h
        (and_then-load cell 0 ("RRC" ∷ []) (λ xs. read_list read (part_of layers xs)) h
          (g 0 (omega arith) (omega arith)) refl)

  stack_lem : read_protocol_stack plain stack h ≡ some shared_value.protocol_stack
  unfolding read_protocol_stack read_strings read_nil
  stack_lem =
      and_then-some (read_strings plain (some layers))
        (λ cu.
          and_then (read_strings plain none)
            λ du. and_then (read_strings plain none) λ ru. give (stack_of cu du ru))
        h layers_lem

  requirement_lem : read_requirements plain (some 1) h ≡ some (some requirement)
  unfolding read_requirements read_nil read_pointer
  requirement_lem =
      let read : NetworkRequirements ℕ → Reading (Block plain) (NetworkRequirements ℕ) =
        λ s. give s in
      let cell = Blocks.requirements_cell plain in
      and_then-some (read_pointer cell read 1) (λ v. give (some v)) h
        (and_then-load cell 1 requirement read h (g 1 (omega arith) (omega arith)) refl)

  none_lem : read_requirements plain none h ≡ some none
  unfolding read_requirements read_nil
  none_lem = refl

  shared_lem :
      read_at (Blocks.disaggregation_cell plain) (read_disaggregation plain) (some 2) h
      ≡ some (some shared_value)
  unfolding read_nil read_pointer read_disaggregation
  shared_lem =
      let cell = Blocks.disaggregation_cell plain in
      let last = λ (s : ProtocolStackOf Texts) (b m : Option (NetworkRequirements ℕ)).
        and_then (read_requirements plain (some 1)) (λ f. give (disaggregation_of s b m f)) in
      let two = λ (s : ProtocolStackOf Texts) (b : Option (NetworkRequirements ℕ)).
        and_then (read_requirements plain none) (last s b) in
      let three =
        λ (s : ProtocolStackOf Texts). and_then (read_requirements plain (some 1)) (two s) in
      and_then-some (read_pointer cell (read_disaggregation plain) 2) (λ v. give (some v)) h
        (and_then-load cell 2 shared (read_disaggregation plain) h (g 2 (omega arith) (omega arith))
          (and_then-some (read_protocol_stack plain stack) three h stack_lem
            ∙ and_then-some (read_requirements plain (some 1)) (two shared_value.protocol_stack) h
                requirement_lem
            ∙ and_then-some (read_requirements plain none)
                (last shared_value.protocol_stack (some requirement)) h none_lem
            ∙ and_then-some (read_requirements plain (some 1))
                (λ f.
                  give (disaggregation_of shared_value.protocol_stack (some requirement) none f))
                h requirement_lem))

disaggregation_copy-IsDeepCopy_example :
    IsDeepCopy
      (read_at (Blocks.disaggregation_cell plain) (read_disaggregation plain))
      (some 2)
      shared_memory
      (some shared_value)
      (disaggregation_copy plain (some 2) shared_memory)
disaggregation_copy-IsDeepCopy_example =
    disaggregation_copy-IsDeepCopy plain (some 2) shared_memory (some shared_value) shared_lem
