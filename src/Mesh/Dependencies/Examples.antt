-- ===== src/Mesh/Dependencies/Examples.antt =====
-- The theorems of the dependencies at concrete inputs.
use sj_cloud.Prelude.{String, List, [], ◌∷◌, Dict, map, ◌≡◌}
use sj_cloud.Mesh.Dependencies.{Graph, resolve}
use sj_cloud.Mesh.Dependencies.Closed.{is_ok, all_known, resolve-all_known}

abbrev services : Dict (List String)
services = ("shop", "postgres" ∷ "auth" ∷ []) ∷ ("auth", "redis" ∷ []) ∷ []

abbrev graph : Graph
graph = record { nodes = "shop" ∷ "auth" ∷ []; edges = [] }

resolve-all_known_example :
    is_ok (resolve services graph).1 ≡ all_known (map (λ s. s.0) services) services
resolve-all_known_example = resolve-all_known services graph
