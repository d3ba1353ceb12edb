-- ===== src/Pipeline/Stops.antt =====
-- The stages that a run does not reach, and runs that are cancelled again.
use sj_cloud.Prelude.{
  ◌+◌, ◌≡◌, refl, arith, String, false, ◌||◌, List, [], ◌∷◌, ◌++◌, none, some, lookup, put,
  lookup-put_self, ok, ◌∙◌,
}
use sj_cloud.Pipeline.Machine.{
  PipelineState, running, success, failed, cancelled, same, track, transition_to,
}
use sj_cloud.Pipeline.Rounds.{
  Identity, StageConfig, Globals, Pipelines, Ended, run_stage, run_stages, ◌then_run◌,
  cancel_pipeline_run,
}

then_run_assoc :
    (x : Ended) (f g h : Pipelines → Ended)
    → ((p : Pipelines) → h p ≡ (f p then_run g))
    → (x then_run h) ≡ (x then_run f then_run g)
then_run_assoc (p, none) f g h k = k p
then_run_assoc (p, some e) f g h k = refl

run_stages-append :
    (who : Identity) (front back : List StageConfig) (p : Pipelines)
    → run_stages who (front ++ back) p ≡ (run_stages who front p then_run run_stages who back)
unfolding run_stages
run_stages-append who [] back p = refl
run_stages-append who (c ∷ front) back p =
    then_run_assoc (run_stage who c p) (run_stages who front) (run_stages who back)
      (run_stages who (front ++ back)) (run_stages-append who front back)

-- No stage after the first that throws is run: whatever stages follow it, the run of the stages
-- ends with its error, and leaves what it has left.
pub run_stages_stop :
    (who : Identity) (front back : List StageConfig) (c : StageConfig) (p q s : Pipelines)
    → (e : String) → run_stages who front p ≡ (q, none)
    → run_stage who c q ≡ (s, some e)
    → run_stages who (front ++ (c ∷ back)) p ≡ (s, some e)
unfolding run_stages
run_stages_stop who front back c p q s e h k =
    run_stages-append who front (c ∷ back) p ∙ rw (h, k) refl

-- A run that was cancelled can be cancelled again, and so can any that has not ended: the metrics
-- count it each time.
pub cancel_pipeline_run_again :
    (id : String) (g : Globals) (s : PipelineState)
    → lookup id g.runs ≡ some s
    → same s success || same s failed ≡ false
    → (h : Globals) × (k : Globals) × (cancel_pipeline_run id g ≡ ok h)
      × (cancel_pipeline_run id h ≡ ok k)
      × (k.metrics.pipeline_runs_cancelled ≡ g.metrics.pipeline_runs_cancelled + 2)
unfolding cancel_pipeline_run transition_to track
cancel_pipeline_run_again id g s h c =
    let m = track running cancelled g.metrics in
    let n = track running cancelled m in
    (
      record g { runs = put id cancelled g.runs; metrics = m },
      record g { runs = put id cancelled (put id cancelled g.runs); metrics = n },
      rw (h, c) refl,
      rw (lookup-put_self id cancelled g.runs) refl,
      omega arith,
    )
