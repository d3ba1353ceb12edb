-- ===== src/Mesh/Dependencies/Closed.antt =====
-- When the dependencies of all services resolve, and what the graph is then.
use sj_cloud.Prelude.{
  ◌≡◌, refl, arith, String, Bool, true, false, ◌||◌, ◌&&◌, List, [], ◌∷◌, ◌++◌, Option, none, some,
  Dict, All, map, Bool-cases, inl, inr, All-append, str_eq_self, ap, ◌∙◌,
}
use sj_cloud.Mesh.Dependencies.{
  Edge, Graph, GraphError, includes, with_node, linked, is_known, after, resolve_each, resolve_from,
  resolve,
}

-- the check of all names of a list, and of all services
abbrev pub all_of : (String → Bool) → List String → Bool
all_of p [] = true
all_of p (x ∷ rest) = p x && all_of p rest

abbrev pub all_known : List String → Dict (List String) → Bool
all_known ids [] = true
all_known ids ((id, deps) ∷ rest) = all_of (is_known ids) deps && all_known ids rest

abbrev pub is_ok {ℓ} : {E : Type ℓ} → Option E → Bool
is_ok none = true
is_ok (some e) = false

resolve_each-ok :
    (ids : List String) (id : String) (deps : List String) (g : Graph)
    → is_ok (resolve_each ids id deps g).1 ≡ all_of (is_known ids) deps
unfolding resolve_each
resolve_each-ok ids id [] g = refl
resolve_each-ok ids id (dep ∷ rest) g = elim (Bool-cases (is_known ids dep)) [
  | inl e ↦ rw e (resolve_each-ok ids id rest (linked id dep g))
  | inr e ↦ rw e refl
]

after-ok :
    (x : Graph × Option GraphError) (f : Graph → Graph × Option GraphError) (b : Bool)
    → ((g : Graph) → is_ok (f g).1 ≡ b)
    → is_ok (after x f).1 ≡ (is_ok x.1 && b)
after-ok (g, none) f b h = h g
after-ok (g, some e) f b h = refl

resolve_from-ok :
    (ids : List String) (services : Dict (List String)) (g : Graph)
    → is_ok (resolve_from ids services g).1 ≡ all_known ids services
unfolding resolve_from
resolve_from-ok ids [] g = refl
resolve_from-ok ids ((id, deps) ∷ rest) g =
    after-ok (resolve_each ids id deps g) (resolve_from ids rest) (all_known ids rest)
      (resolve_from-ok ids rest)
    ∙ ap (λ b. b && all_known ids rest) (resolve_each-ok ids id deps g)

-- The dependencies resolve without an error exactly if each dependency of each service is a known
-- backing service or one of the services.
pub resolve-all_known :
    (services : Dict (List String)) (g : Graph)
    → is_ok (resolve services g).1 ≡ all_known (map (λ s. s.0) services) services
unfolding resolve
resolve-all_known services g = resolve_from-ok (map (λ s. s.0) services) services g

-- every edge ends in a node
abbrev pub Ends : List String → List Edge → Type 0
Ends nodes = All (λ e. includes e.to nodes ≡ true)

includes-append :
    (t : String) (xs ys : List String) → includes t (xs ++ ys) ≡ (includes t xs || includes t ys)
includes-append t [] ys = refl
includes-append t (x ∷ xs) ys = ground (arith, includes-append t xs ys)

includes-with_node :
    (t dep : String) (nodes : List String)
    → includes t nodes ≡ true
    → includes t (with_node dep nodes) ≡ true
includes-with_node t dep nodes h = ground (arith, h, includes-append t nodes (dep ∷ []))

includes-with_node_self :
    (dep : String) (nodes : List String) → includes dep (with_node dep nodes) ≡ true
includes-with_node_self dep nodes = elim (Bool-cases (includes dep nodes)) [
  | inl e ↦ rw e e
  | inr e ↦ rw (e, includes-append dep nodes (dep ∷ [])) (ground (arith, e, str_eq_self dep))
]

Ends-with_node :
    (dep : String) (nodes : List String) (edges : List Edge)
    → Ends nodes edges
    → Ends (with_node dep nodes) edges
Ends-with_node dep nodes [] h = tt
Ends-with_node dep nodes (e ∷ edges) h =
    (includes-with_node e.to dep nodes h.0, Ends-with_node dep nodes edges h.1)

linked-Ends :
    (id dep : String) (g : Graph)
    → Ends g.nodes g.edges
    → Ends (linked id dep g).nodes (linked id dep g).edges
linked-Ends id dep g h =
    All-append (λ e. includes e.to (with_node dep g.nodes) ≡ true) g.edges
      (record { from = id; to = dep } ∷ []) (Ends-with_node dep g.nodes g.edges h)
      (includes-with_node_self dep g.nodes, tt)

resolve_each-Ends :
    (ids : List String) (id : String) (deps : List String) (g : Graph)
    → Ends g.nodes g.edges
    → Ends (resolve_each ids id deps g).0.nodes (resolve_each ids id deps g).0.edges
unfolding resolve_each
resolve_each-Ends ids id [] g h = h
resolve_each-Ends ids id (dep ∷ rest) g h = elim (Bool-cases (is_known ids dep)) [
  | inl e ↦ rw e (resolve_each-Ends ids id rest (linked id dep g) (linked-Ends id dep g h))
  | inr e ↦ rw e h
]

after-Ends :
    (x : Graph × Option GraphError) (f : Graph → Graph × Option GraphError)
    → Ends x.0.nodes x.0.edges
    → ((g : Graph) → Ends g.nodes g.edges → Ends (f g).0.nodes (f g).0.edges)
    → Ends (after x f).0.nodes (after x f).0.edges
after-Ends (g, none) f h k = k g h
after-Ends (g, some e) f h k = h

resolve_from-Ends :
    (ids : List String) (services : Dict (List String)) (g : Graph)
    → Ends g.nodes g.edges
    → Ends (resolve_from ids services g).0.nodes (resolve_from ids services g).0.edges
unfolding resolve_from
resolve_from-Ends ids [] g h = h
resolve_from-Ends ids ((id, deps) ∷ rest) g h =
    after-Ends (resolve_each ids id deps g) (resolve_from ids rest)
      (resolve_each-Ends ids id deps g h) (resolve_from-Ends ids rest)

-- Where every edge of the graph ends in a node, this is so after the dependencies are resolved too,
-- with an error or without.
pub resolve-Ends :
    (services : Dict (List String)) (g : Graph)
    → Ends g.nodes g.edges
    → Ends (resolve services g).0.nodes (resolve services g).0.edges
unfolding resolve
resolve-Ends services g h = resolve_from-Ends (map (λ s. s.0) services) services g h
