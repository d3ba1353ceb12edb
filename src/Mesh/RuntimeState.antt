-- ===== src/Mesh/RuntimeState.antt =====
-- platform/service-mesh/runtime/state/runtime-state.js: the states of the mesh runtime.
use mathlib.Core.Bool.{Bool, true, false}

pub data RuntimeState : Type 0 where
  booting loading ready reloading degraded recovering failed stopping stopped : RuntimeState

pub RuntimeState-discrete : Discrete RuntimeState
RuntimeState-discrete = hlevel

-- `a === b` on states
abbrev pub same : RuntimeState → RuntimeState → Bool
same booting booting = true
same loading loading = true
same ready ready = true
same reloading reloading = true
same degraded degraded = true
same recovering recovering = true
same failed failed = true
same stopping stopping = true
same stopped stopped = true
same _ _ = false
