-- ===== src/Application/Deploying/Starting.antt =====
-- The start of the container of an application by an engine.
use sj_cloud.Prelude.{◌≡◌, refl, arith, String, Option, none, some, Result, ok, err}
use sj_cloud.Application.Containers
use sj_cloud.Application.Containers.{Containers}
use sj_cloud.Application.Engine.{Engine}
use sj_cloud.Application.Engine.Tracked.{IsTracked, IsTracked-world}
use sj_cloud.Application.Deploying.{contained, with_containers, start_container}

contained-IsTracked :
    (id : String) (g : Engine) (r : Result String Containers)
    → IsTracked id g
    → IsTracked id (contained g r).0
contained-IsTracked id g (ok c) t = IsTracked-world id g (record g.world { containers = c }) refl t
contained-IsTracked id g (err e) t = t

pub start_container-IsTracked :
    (id tenant app : String) (files : Option String) (g : Engine)
    → IsTracked id g
    → IsTracked id (start_container tenant app files g).0
unfolding start_container
start_container-IsTracked id tenant app files g t =
    contained-IsTracked id g (Containers.start tenant app files g.world.containers) t

-- the call where the files are written
pub start_container_done :
    (tenant app : String) (files : Option String) (g : Engine)
    → files ≡ none
    → (cs : Containers) × (start_container tenant app files g ≡ (with_containers cs g, none))
unfolding start_container Containers.start
start_container_done tenant app none g e = (_, refl)
start_container_done tenant app (some x) g e = ground arith
