-- ===== src/Mesh/Router/Interleaving.antt =====
-- The counts of active connections in every order of the event loop.
use sj_cloud.Prelude.{
  ℕ, zero, suc, ◌+◌, ◌-◌, ◌≤◌, ◌<◌, ◌≡◌, refl, ap, ◌∙◌, Dict, ◌⊎◌, ◌*◌, String, Bool, some, List,
  [], ◌∷◌, arith, str_eq, eq_iff, str_eq_self, if◌then◌else◌, tally, tally-bump, count, All,
  Option-cases, inl, inr, Result, ok, err,
}
use sj_cloud.Mesh.Balancer
use sj_cloud.Mesh.Balancer.{
  Balancer, Target, Strategy, Endpoint, select_endpoint, select_from, select_round_robin,
  increment_connections,
}
use sj_cloud.Mesh.Balancer.Connections.{select_endpoint-connections}
use sj_cloud.Mesh.Router.Requests.{Request, Outcome, answered, failed, MeshState, endpoints_of}
use sj_cloud.Mesh.Router.Attempt.{
  Flight, Admission, refused, admitted, admit, guard_source, guard_breaker, Launch, rejected,
  launched, launch, launch_at, Landing, done, retry, land,
}
use sj_cloud.Mesh.Router.Outcomes.{releases, land-tally, balancer-fail}
use sj_cloud.Mesh.Router.Flights.{
  Net, Action, arrive, take_off, touch_down, pull, arrived, taken_off, touched_down, start, finish,
  act, act_all,
}

-- the flights that wait for an answer of `url`
abbrev pub in_flight : String → Net → ℕ
in_flight url n = count (λ p. str_eq p.0 url) n.flying

abbrev pub conns : String → Net → ℕ
conns url n = tally url n.mesh.balancer.active_connections

admit-balancer : (now : ℕ) (r : Request) (s : MeshState) → (admit now r s).1.balancer ≡ s.balancer
unfolding admit guard_source guard_breaker
admit-balancer now r s = ground arith

-- what a launch does to the count of an endpoint
launched-tally : String → Launch → ℕ → ℕ
launched-tally url (rejected e) n = n
launched-tally url (launched taken) n = if str_eq taken url then n + 1 else n

launch_at-tally :
    (r : Result Balancer.Error String) (now : ℕ) (f : Flight) (s : MeshState) (url : String)
    → let (l, s') = launch_at r now f s in
      tally url s'.balancer.active_connections
      ≡ launched-tally url l (tally url s.balancer.active_connections)
unfolding launch_at launched-tally increment_connections
launch_at-tally (err e) now f s url =
    ap (λ (b : Balancer). tally url b.active_connections) (balancer-fail now f.request.service_id s)
launch_at-tally (ok taken) now f s url =
    ground (arith, eq_iff taken url, tally-bump taken url s.balancer.active_connections)

launch-tally :
    (now draw : ℕ) (f : Flight) (s : MeshState) (url : String)
    → let (l, s') = launch now draw f s in
      tally url s'.balancer.active_connections
      ≡ launched-tally url l (tally url s.balancer.active_connections)
unfolding launch
launch-tally now draw f s url =
    let id = f.request.service_id in
    let (picked, lb) =
      select_endpoint id f.config.strategy (endpoints_of f.config) [] draw s.balancer in
    launch_at-tally picked now f (record s { balancer = lb }) url
    ∙ ap
        (λ (m : Dict ℕ).
          launched-tally url (launch_at picked now f (record s { balancer = lb })).0 (tally url m))
        (select_endpoint-connections id f.config.strategy (endpoints_of f.config) [] draw
          s.balancer)

pull-count {ℓ} :
    {A : Type ℓ} (p : A → Bool) (i : ℕ) (xs : List A) {x : A} {ys : List A}
    → pull i xs ≡ some (x, ys)
    → count p xs ≡ (if p x then suc (count p ys) else count p ys)
unfolding pull
pull-count p i [] e = cc
pull-count p zero (x ∷ xs) e = ground arith
pull-count p (suc i) (x ∷ xs) e = elim (Option-cases (pull i xs)) [
  | inl missed ↦ cc (rw (missed, pull) at e)
  | inr ((y, ys), pulled) ↦ ground (arith, pull-count p i xs pulled)
]

-- the balance of one endpoint, with the most that an attempt may give back
arrived-conns :
    (p : Admission × MeshState) (n : Net) (url : String)
    → p.1.balancer ≡ n.mesh.balancer
    → (conns url (arrived p n) ≡ conns url n) × (in_flight url (arrived p n) ≡ in_flight url n)
unfolding arrived
arrived-conns (refused r, s) n url e =
    (ap (λ (b : Balancer). tally url b.active_connections) e, refl)
arrived-conns (admitted f, s) n url e =
    (ap (λ (b : Balancer). tally url b.active_connections) e, refl)

taken_off-conns :
    (p : Launch × MeshState) (f : Flight) (n : Net) (url : String)
    → tally url p.1.balancer.active_connections ≡ launched-tally url p.0 (conns url n)
    → conns url (taken_off p f n) + in_flight url n ≡ in_flight url (taken_off p f n) + conns url n
unfolding taken_off launched-tally
taken_off-conns (rejected e, s) f n url h = omega (arith, h)
taken_off-conns (launched taken, s) f n url h = ground (arith, h)

touched_down-conns :
    (p : Landing × MeshState) (n : Net) (url : String)
    → (conns url (touched_down p n) ≡ tally url p.1.balancer.active_connections)
      × (in_flight url (touched_down p n) ≡ in_flight url n)
unfolding touched_down
touched_down-conns (done r, s) n url = (refl, refl)
touched_down-conns (retry d f, s) n url = (refl, refl)

-- No endpoint has more active connections on its count than requests that wait for it.
abbrev pub IsCovered : Net → Type 0
IsCovered n = (url : String) → conns url n ≤ in_flight url n

-- The counts are those of the requests that wait.
abbrev pub IsExact : Net → Type 0
IsExact n = (url : String) → conns url n ≡ in_flight url n

start-conns :
    (now draw : ℕ) (i : ℕ) (n : Net) (url : String)
    → let n' = start now draw (pull i n.waiting) n in
      conns url n' + in_flight url n ≡ in_flight url n' + conns url n
unfolding start
start-conns now draw i n url = elim (Option-cases (pull i n.waiting)) [
  | inl missed ↦ rw (missed, start) (omega arith)
  | inr ((f, rest), pulled) ↦
      rw (pulled, start)
        (taken_off-conns (launch now draw f n.mesh) f (record n { waiting = rest }) url
          (launch-tally now draw f n.mesh url))
]

-- the counts after an answer, where one was waited for
finish-conns :
    (now jitter : ℕ) (o : Outcome) (i : ℕ) (n : Net) (url : String)
    → let n' = finish now jitter o (pull i n.flying) n in
      (n' ≡ n)
      ⊎ ((taken : ℕ) × (conns url n' ≡ conns url n - taken * releases o)
          × (in_flight url n' + taken ≡ in_flight url n))
unfolding finish
finish-conns now jitter o i n url = elim (Option-cases (pull i n.flying)) [
  | inl missed ↦ inl (rw (missed, finish) refl)
  | inr (((u, f), rest), pulled) ↦
      let (kept, waits) =
        touched_down-conns (land now jitter o f u n.mesh) (record n { flying = rest }) url in
      let tallied = land-tally now jitter o f u url n.mesh in
      let counted = pull-count (λ (p : String × Flight). str_eq p.0 url) i n.flying pulled in
      inr (
        if str_eq u url then 1 else 0,
        rw (pulled, finish) (ground (arith, eq_iff u url)),
        rw (pulled, finish) (ground arith),
      )
]

releases-pos : (o : Outcome) → 1 ≤ releases o
releases-pos (failed why) = omega arith
releases-pos (answered status) = ground arith

IsCovered-finish :
    (now jitter : ℕ) (o : Outcome) (i : ℕ) (n : Net)
    → IsCovered n
    → IsCovered (finish now jitter o (pull i n.flying) n)
IsCovered-finish now jitter o i n h url = elim (finish-conns now jitter o i n url) [
  | inl same ↦ rw same (h url)
  | inr (taken, less, fewer) ↦
      let most : taken ≤ taken * releases o = grind (arith, releases-pos o) in
      omega (arith, less, fewer, most, h url)
]

IsExact-finish :
    (now jitter : ℕ) (o : Outcome) (i : ℕ) (n : Net)
    → releases o ≡ 1
    → IsExact n
    → IsExact (finish now jitter o (pull i n.flying) n)
IsExact-finish now jitter o i n once h url = elim (finish-conns now jitter o i n url) [
  | inl same ↦ rw same (h url)
  | inr (taken, less, fewer) ↦
      let just : taken * releases o ≡ taken = rw once (omega arith) in
      omega (arith, less, fewer, just, h url)
]

-- an action that is not the arrival of an upstream's status from 500 on
abbrev pub IsGentle : Action → Type 0
IsGentle (touch_down i now jitter o) = releases o ≡ 1
IsGentle _ = Unit

act-IsCovered : (a : Action) (n : Net) → IsCovered n → IsCovered (act a n)
unfolding act
act-IsCovered (arrive now r) n h url =
    omega (arith, h url, arrived-conns (admit now r n.mesh) n url (admit-balancer now r n.mesh))
act-IsCovered (take_off i now draw) n h url = omega (arith, h url, start-conns now draw i n url)
act-IsCovered (touch_down i now jitter o) n h url = IsCovered-finish now jitter o i n h url

act-IsExact : (a : Action) (n : Net) → IsGentle a → IsExact n → IsExact (act a n)
unfolding act
act-IsExact (arrive now r) n g h url =
    omega (arith, h url, arrived-conns (admit now r n.mesh) n url (admit-balancer now r n.mesh))
act-IsExact (take_off i now draw) n g h url = omega (arith, h url, start-conns now draw i n url)
act-IsExact (touch_down i now jitter o) n g h url = IsExact-finish now jitter o i n g h url

-- Where no endpoint is counted for more requests than wait for it, this stays so, whatever the
-- event loop runs and in whatever order.
pub act_all-IsCovered : (acts : List Action) (n : Net) → IsCovered n → IsCovered (act_all acts n)
unfolding act_all
act_all-IsCovered [] n h = h
act_all-IsCovered (a ∷ rest) n h = act_all-IsCovered rest (act a n) (act-IsCovered a n h)

-- Where the counts of active connections are those of the requests that wait, they stay so in every
-- order of the event loop in which no upstream answers with a status from 500 on.
pub act_all-IsExact :
    (acts : List Action) (n : Net) → All IsGentle acts → IsExact n → IsExact (act_all acts n)
unfolding act_all
act_all-IsExact [] n g h = h
act_all-IsExact (a ∷ rest) n g h = act_all-IsExact rest (act a n) g.1 (act-IsExact a n g.0 h)

-- Where the counts of active connections are those of the requests that wait, and an upstream answers
-- one of them with a status from 500 on while another waits for the same endpoint, the count of the
-- endpoint is then one lower than the number of requests that wait for it.
pub server_error_undercounts :
    (i now jitter status : ℕ) (url : String) (f : Flight) (rest : List (String × Flight)) (n : Net)
    → IsExact n
    → pull i n.flying ≡ some ((url, f), rest)
    → 500 ≤ status
    → 0 < count (λ p. str_eq p.0 url) rest
    → let n' = act (touch_down i now jitter (answered status)) n in
      conns url n' + 1 ≡ in_flight url n'
unfolding act
server_error_undercounts i now jitter status url f rest n h pulled high more =
    let l = land now jitter (answered status) f url n.mesh in
    let (kept, waits) = touched_down-conns l (record n { flying = rest }) url in
    let counted = pull-count (λ (p : String × Flight). str_eq p.0 url) i n.flying pulled in
    rw (pulled, finish)
      (ground (
        arith,
        h url,
        str_eq_self url,
        land-tally now jitter (answered status) f url url n.mesh,
        kept,
        waits,
        counted,
      ))
