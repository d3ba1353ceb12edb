-- ===== src/Mesh/Dependencies.antt =====
-- platform/service-mesh/compiler: the graph of compiler-context.js and dependency-resolver.js. Of a
-- compiled service, its dependencies are kept.
pub mod Closed
mod Examples
use sj_cloud.Prelude.{
  String, Bool, true, false, ◌||◌, List, [], ◌∷◌, ◌++◌, Option, none, some, Dict, lookup, some_of,
  str_eq, if◌then◌else◌, Result, ok, err, map,
}

pub record Edge : Type 0 where
  pub from : String
  pub to : String

-- `dependencyGraph`
pub record Graph : Type 0 where
  pub nodes : List String
  pub edges : List Edge

-- `DependencyGraphError`
pub record GraphError : Type 0 where
  pub service : String
  pub dependency : String

abbrev pub includes : String → List String → Bool
includes t = some_of (λ x. str_eq x t)

abbrev pub whitelisted : List String
whitelisted =
    "postgres" ∷ "redis" ∷ "memcached" ∷ "rabbitmq" ∷ "mysql" ∷ "minio" ∷ "elasticsearch" ∷ "kafka"
    ∷ "cassandra" ∷ "influxdb" ∷ "storage" ∷ []

abbrev pub with_node : String → List String → List String
with_node t nodes = if includes t nodes then nodes else nodes ++ (t ∷ [])

-- `addCompiledService`, of the graph
abbrev pub add_compiled_service : String → Graph → Graph
add_compiled_service id g = record g { nodes = with_node id g.nodes }

abbrev pub linked : String → String → Graph → Graph
linked id dep g = record {
  nodes = with_node dep g.nodes;
  edges = g.edges ++ (record { from = id; to = dep } ∷ []);
}

-- the dependency is known outside or in the registry
abbrev pub is_known : List String → String → Bool
is_known ids dep = includes dep whitelisted || includes dep ids

abbrev pub after {ℓ} :
    {E : Type ℓ} → Graph × Option E → (Graph → Graph × Option E) → Graph × Option E
after (g, none) f = f g
after (g, some e) f = (g, some e)

-- the dependencies of one service; the graph is written up to the error
unfoldable pub resolve_each : List String → String → List String → Graph → Graph × Option GraphError
resolve_each ids id [] g = (g, none)
resolve_each ids id (dep ∷ rest) g =
    let next = resolve_each ids id rest (linked id dep g) in
    if is_known ids dep then next else (g, some (record { service = id; dependency = dep }))

unfoldable pub resolve_from : List String → Dict (List String) → Graph → Graph × Option GraphError
resolve_from ids [] g = (g, none)
resolve_from ids ((id, deps) ∷ rest) g = after (resolve_each ids id deps g) (resolve_from ids rest)

-- `resolve`
unfoldable pub resolve : Dict (List String) → Graph → Graph × Option GraphError
resolve services g = resolve_from (map (λ s. s.0) services) services g
