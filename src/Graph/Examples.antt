-- ===== src/Graph/Examples.antt =====
-- The graph of a small project, and the theorems at it.
use susun.Prelude.{ℕ, ◌<◌, ◌≡◌, ◌↔◌, refl, true, some, none, [], ◌∷◌, text, list_eq, nat_eq}
use susun.IndexMap.{contains, IsDistinct, get, keys, insert, insert_set}
use susun.Model.{ServiceName, Service, Project, default_service, default_dependency}
use susun.Selection.{ProjectSelection, select_services}
use susun.Diagnostics.Report.{has_errors, push}
use susun.Kahn.Run.{index}
use susun.Selection.Correct.{IsSelected, contains-select_services}
use susun.Graph.{DependencyGraph, GraphOutcome, build_graph, cycle_diagnostic}
use susun.Graph.Correct.{
  Needs, IsAcyclic, build_graph_total, build_graph-order, build_graph-IsAcyclic_iff,
  build_graph-has_errors,
}

abbrev depending : ServiceName → Service
depending name = record default_service { depends_on = (name, default_dependency) ∷ [] }

-- `web` depends on `db`, and `debug` has a profile that is not active.
abbrev pub shop : Project
shop = record {
  name = text "shop";
  services =
      (text "web", depending (text "db"))
      ∷ (text "db", default_service)
      ∷ (text "debug", record default_service { profiles = text "dev" ∷ [] })
      ∷ [];
  networks = [];
  volumes = [];
  configs = [];
  secrets = [];
}

abbrev pub selected : ProjectSelection
selected = record { active_services = text "web" ∷ text "db" ∷ [] }

select_test : select_services shop [] ≡ selected
unfolding select_services
select_test = refl

abbrev pub shop_graph : DependencyGraph
shop_graph = record {
  order = text "db" ∷ text "web" ∷ [];
  edges = (text "web", []) ∷ (text "db", text "web" ∷ []) ∷ [];
}

abbrev pub shop_outcome : GraphOutcome
shop_outcome = record {
  graph = some shop_graph;
  report = record { diagnostics = []; next_ordinal = 0 };
}

pub build_graph-shop : build_graph shop selected ≡ some shop_outcome
unfolding build_graph get keys contains insert insert_set
build_graph-shop = refl

-- Two services that depend on each other.
abbrev looped : Project
looped = record shop {
  services = (text "a", depending (text "b")) ∷ (text "b", depending (text "a")) ∷ [];
}

cycle_test :
    build_graph looped (record { active_services = text "a" ∷ text "b" ∷ [] })
    ≡ some (record {
      graph = none;
      report = record {
        diagnostics = record cycle_diagnostic { ordinal = 0 } ∷ [];
        next_ordinal = 1;
      };
    })
unfolding build_graph push get keys contains insert insert_set
cycle_test = refl

pub selected-IsDistinct : IsDistinct selected.active_services
unfolding contains
selected-IsDistinct = (refl, (refl, tt))

build_graph_total_example : (o : GraphOutcome) × (build_graph shop selected ≡ some o)
build_graph_total_example = build_graph_total shop selected selected-IsDistinct

build_graph-order_example :
    IsDistinct shop_graph.order
    × ((k : ServiceName) → contains shop_graph.order k ≡ contains selected.active_services k)
    × ((k u : ServiceName)
        → Needs shop selected.active_services k u
        → index shop_graph.order u < index shop_graph.order k)
build_graph-order_example =
    build_graph-order shop selected selected-IsDistinct shop_outcome shop_graph build_graph-shop
      refl

build_graph-IsAcyclic_iff_example :
    ((dg : DependencyGraph) × (shop_outcome.graph ≡ some dg))
    ↔ ((rank : ServiceName → ℕ) × IsAcyclic shop selected.active_services rank)
build_graph-IsAcyclic_iff_example =
    build_graph-IsAcyclic_iff shop selected selected-IsDistinct shop_outcome build_graph-shop

build_graph-has_errors_example :
    (shop_outcome.graph ≡ none) ↔ (has_errors shop_outcome.report ≡ true)
build_graph-has_errors_example =
    build_graph-has_errors shop selected selected-IsDistinct shop_outcome build_graph-shop

shop-IsDistinct : IsDistinct (keys shop.services)
unfolding keys contains
shop-IsDistinct = (refl, (refl, (refl, tt)))

contains-select_services_example :
    (contains (select_services shop (text "dev" ∷ [])).active_services (text "debug") ≡ true)
    ↔ IsSelected shop (text "dev" ∷ []) (text "debug")
contains-select_services_example =
    contains-select_services shop (text "dev" ∷ []) (text "debug") shop-IsDistinct
