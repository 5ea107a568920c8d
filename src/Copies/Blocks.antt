-- ===== src/Copies/Blocks.antt =====
-- What an address of the memory holds, for the copies of operator/api/v1beta1/zz_generated.deepcopy.go.
use oai_k8s.Common.{String, refl, none, some, List}
use oai_k8s.Common.Dict.{Dict}
use oai_k8s.Api.{Connection, TopologyLink, NetworkRequirements}
use oai_k8s.Cluster.{SplitSpec, SplitStatus}
use oai_k8s.Copies.Memory.{Cell}
use oai_k8s.Copies.Objects.{
  Foreign, MaybeSlice, MaybeAddress, StoredDisaggregation, StoredTopology, StoredSplit,
  StoredPlacer, StoredList, ChainPositionOf, ProtocolStackOf, NodeOf, SplitsPlacerSpecOf,
  SplitsPlacerStatusOf,
}

pub data Block (F : Foreign) : Type 0 where
  strings : List String → Block F
  texts : Dict String → Block F
  positions : List MaybeAddress → Block F
  position : ChainPositionOf MaybeSlice → Block F
  stack : ProtocolStackOf MaybeSlice → Block F
  requirements : NetworkRequirements F.Float → Block F
  disaggregation : StoredDisaggregation → Block F
  node : NodeOf MaybeSlice → Block F
  nodes : Dict MaybeAddress → Block F
  connection : Connection → Block F
  link : TopologyLink F.Float → Block F
  links : Dict MaybeAddress → Block F
  topology : StoredTopology → Block F
  placer_spec : SplitsPlacerSpecOf MaybeSlice → Block F
  placer_status : SplitsPlacerStatusOf MaybeAddress → Block F
  placer : StoredPlacer F → Block F
  placers : List (StoredPlacer F) → Block F
  placer_list : StoredList F → Block F
  split_spec : SplitSpec → Block F
  split_status : SplitStatus → Block F
  split : StoredSplit F → Block F
  splits : List (StoredSplit F) → Block F
  split_list : StoredList F → Block F
  other : F.Other → Block F

module _ (F : Foreign) where
  abbrev pub strings_cell : Cell (Block F) (List String)
  strings_cell = record {
    inject = strings;
    project = λ b. elim b [ strings a ↦ some a | _ ↦ none ];
    project_inject = λ a. refl;
  }

  abbrev pub texts_cell : Cell (Block F) (Dict String)
  texts_cell = record {
    inject = texts;
    project = λ b. elim b [ texts a ↦ some a | _ ↦ none ];
    project_inject = λ a. refl;
  }

  abbrev pub positions_cell : Cell (Block F) (List MaybeAddress)
  positions_cell = record {
    inject = positions;
    project = λ b. elim b [ positions a ↦ some a | _ ↦ none ];
    project_inject = λ a. refl;
  }

  abbrev pub position_cell : Cell (Block F) (ChainPositionOf MaybeSlice)
  position_cell = record {
    inject = position;
    project = λ b. elim b [ position a ↦ some a | _ ↦ none ];
    project_inject = λ a. refl;
  }

  abbrev pub stack_cell : Cell (Block F) (ProtocolStackOf MaybeSlice)
  stack_cell = record {
    inject = stack;
    project = λ b. elim b [ stack a ↦ some a | _ ↦ none ];
    project_inject = λ a. refl;
  }

  abbrev pub requirements_cell : Cell (Block F) (NetworkRequirements F.Float)
  requirements_cell = record {
    inject = requirements;
    project = λ b. elim b [ requirements a ↦ some a | _ ↦ none ];
    project_inject = λ a. refl;
  }

  abbrev pub disaggregation_cell : Cell (Block F) StoredDisaggregation
  disaggregation_cell = record {
    inject = disaggregation;
    project = λ b. elim b [ disaggregation a ↦ some a | _ ↦ none ];
    project_inject = λ a. refl;
  }

  abbrev pub node_cell : Cell (Block F) (NodeOf MaybeSlice)
  node_cell = record {
    inject = node;
    project = λ b. elim b [ node a ↦ some a | _ ↦ none ];
    project_inject = λ a. refl;
  }

  abbrev pub nodes_cell : Cell (Block F) (Dict MaybeAddress)
  nodes_cell = record {
    inject = nodes;
    project = λ b. elim b [ nodes a ↦ some a | _ ↦ none ];
    project_inject = λ a. refl;
  }

  abbrev pub connection_cell : Cell (Block F) Connection
  connection_cell = record {
    inject = connection;
    project = λ b. elim b [ connection a ↦ some a | _ ↦ none ];
    project_inject = λ a. refl;
  }

  abbrev pub link_cell : Cell (Block F) (TopologyLink F.Float)
  link_cell = record {
    inject = link;
    project = λ b. elim b [ link a ↦ some a | _ ↦ none ];
    project_inject = λ a. refl;
  }

  abbrev pub links_cell : Cell (Block F) (Dict MaybeAddress)
  links_cell = record {
    inject = links;
    project = λ b. elim b [ links a ↦ some a | _ ↦ none ];
    project_inject = λ a. refl;
  }

  abbrev pub topology_cell : Cell (Block F) StoredTopology
  topology_cell = record {
    inject = topology;
    project = λ b. elim b [ topology a ↦ some a | _ ↦ none ];
    project_inject = λ a. refl;
  }

  abbrev pub placer_spec_cell : Cell (Block F) (SplitsPlacerSpecOf MaybeSlice)
  placer_spec_cell = record {
    inject = placer_spec;
    project = λ b. elim b [ placer_spec a ↦ some a | _ ↦ none ];
    project_inject = λ a. refl;
  }

  abbrev pub placer_status_cell : Cell (Block F) (SplitsPlacerStatusOf MaybeAddress)
  placer_status_cell = record {
    inject = placer_status;
    project = λ b. elim b [ placer_status a ↦ some a | _ ↦ none ];
    project_inject = λ a. refl;
  }

  abbrev pub placer_cell : Cell (Block F) (StoredPlacer F)
  placer_cell = record {
    inject = placer;
    project = λ b. elim b [ placer a ↦ some a | _ ↦ none ];
    project_inject = λ a. refl;
  }

  abbrev pub placers_cell : Cell (Block F) (List (StoredPlacer F))
  placers_cell = record {
    inject = placers;
    project = λ b. elim b [ placers a ↦ some a | _ ↦ none ];
    project_inject = λ a. refl;
  }

  abbrev pub placer_list_cell : Cell (Block F) (StoredList F)
  placer_list_cell = record {
    inject = placer_list;
    project = λ b. elim b [ placer_list a ↦ some a | _ ↦ none ];
    project_inject = λ a. refl;
  }

  abbrev pub split_spec_cell : Cell (Block F) SplitSpec
  split_spec_cell = record {
    inject = split_spec;
    project = λ b. elim b [ split_spec a ↦ some a | _ ↦ none ];
    project_inject = λ a. refl;
  }

  abbrev pub split_status_cell : Cell (Block F) SplitStatus
  split_status_cell = record {
    inject = split_status;
    project = λ b. elim b [ split_status a ↦ some a | _ ↦ none ];
    project_inject = λ a. refl;
  }

  abbrev pub split_cell : Cell (Block F) (StoredSplit F)
  split_cell = record {
    inject = split;
    project = λ b. elim b [ split a ↦ some a | _ ↦ none ];
    project_inject = λ a. refl;
  }

  abbrev pub splits_cell : Cell (Block F) (List (StoredSplit F))
  splits_cell = record {
    inject = splits;
    project = λ b. elim b [ splits a ↦ some a | _ ↦ none ];
    project_inject = λ a. refl;
  }

  abbrev pub split_list_cell : Cell (Block F) (StoredList F)
  split_list_cell = record {
    inject = split_list;
    project = λ b. elim b [ split_list a ↦ some a | _ ↦ none ];
    project_inject = λ a. refl;
  }

  abbrev pub other_cell : Cell (Block F) F.Other
  other_cell = record {
    inject = other;
    project = λ b. elim b [ other a ↦ some a | _ ↦ none ];
    project_inject = λ a. refl;
  }
