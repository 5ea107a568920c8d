-- ===== src/Tests/Accounting.antt =====
-- What the placement of three units takes, in the topology of operator/controllers/algorithm/placement_test.go.
use oai_k8s.Common.{String, ◌≡◌, refl, List, [], true, Option}
use oai_k8s.Common.{ok}
use oai_k8s.Common.Int.{ℤ}
use oai_k8s.Common.Dict.{lookup}
use oai_k8s.Extern.Sample.{sample_platform}
use oai_k8s.Api.{ChainPosition}
use oai_k8s.Placement.State.{Graph, Position}
use oai_k8s.Placement.Samples.{test_orders}
use oai_k8s.Placement.Place.{place}
use oai_k8s.Placement.Place.Accounts.{Accounts, count, outcomes, positions_on, units_on}
use oai_k8s.Placement.Place.Bounds.{Amounts, Suffices, place-Suffices}
use oai_k8s.Tests.Graphs.{tested}
use oai_k8s.Tests.Placements.{three_units, three_units_placed, tested-IsSolvent}

abbrev placed_graph : Graph ℤ ℤ
placed_graph = (place sample_platform tested test_orders three_units).1

abbrev placed_units : List ChainPosition
placed_units = (place sample_platform tested test_orders three_units).2

all_placed :
    place sample_platform tested test_orders three_units ≡ (ok true, placed_graph, placed_units)
all_placed = λ i. (three_units_placed i, placed_graph, placed_units)

exact : Amounts sample_platform
exact = record { amount = λ q. q; amount_sub = λ a b. refl; amount_sign = λ a h. h }

place-Suffices_example :
    (vs : List (Option Position)) × (placed_units ≡ outcomes three_units vs)
    × ((name : String)
        → Suffices sample_platform exact tested.requested_resources
            (count name (positions_on vs (units_on three_units [])))
            (lookup name tested.graph.nodes))
place-Suffices_example =
    place-Suffices sample_platform exact tested test_orders three_units placed_units placed_graph
      true tested-IsSolvent all_placed
