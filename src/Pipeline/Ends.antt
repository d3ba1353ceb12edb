-- ===== src/Pipeline/Ends.antt =====
-- How a run ends: its status, the metrics and what is saved.
use sj_cloud.Prelude.{
  ◌≡◌, ◌≢◌, Option, refl, ap, arith, String, List, [], ◌∷◌, none, some, Dict, lookup,
  lookup-put_self, ◌⊎◌, inl, inr, ◌∙◌,
}
use sj_cloud.Application.Engine.{World}
use sj_cloud.Pipeline.Machine.{
  PipelineState, Metrics, queued, running, success, failed, track, transition_to,
}
use sj_cloud.Pipeline.Runner
use sj_cloud.Pipeline.Runner.{Outside, Run, Outcome}
use sj_cloud.Pipeline.Rounds.{
  Identity, StageConfig, Config, Globals, Pipelines, Ended, stage_done, run_stage, run_stages,
  ◌then_run◌, Files, caught_metrics, rethrown, caught, with_end, finished, begun, run, save_run,
  log_history, with_metrics, inject,
}

save_run-metrics :
    (who : Identity) (e : Option String) (p : Pipelines)
    → (save_run who e p).0.globals.metrics ≡ p.globals.metrics
save_run-metrics who none p = refl
save_run-metrics who (some e) p = refl

stage_done-metrics :
    (who : Identity) (c : StageConfig) (x : Outcome) (g : Globals)
    → (stage_done who c x g).0.globals.metrics ≡ g.metrics
stage_done-metrics who c (r, none) g = save_run-metrics who c.saving _
stage_done-metrics who c (r, some e) g = refl

run_stage-metrics :
    (who : Identity) (c : StageConfig) (p : Pipelines)
    → (run_stage who c p).0.globals.metrics ≡ p.globals.metrics
unfolding run_stage
run_stage-metrics who c p = stage_done-metrics who c _ p.globals

then_run-metrics :
    (x : Ended) (f : Pipelines → Ended)
    → ((p : Pipelines) → (f p).0.globals.metrics ≡ p.globals.metrics)
    → (x then_run f).0.globals.metrics ≡ x.0.globals.metrics
then_run-metrics (p, none) f h = h p
then_run-metrics (p, some e) f h = refl

run_stages-metrics :
    (who : Identity) (stages : List StageConfig) (p : Pipelines)
    → (run_stages who stages p).0.globals.metrics ≡ p.globals.metrics
unfolding run_stages
run_stages-metrics who [] p = refl
run_stages-metrics who (c ∷ rest) p =
    then_run-metrics (run_stage who c p) (run_stages who rest) (run_stages-metrics who rest)
    ∙ run_stage-metrics who c p

abbrev pub HasError : Option String → Option String → Type 0
HasError a b = (a ≢ none) ⊎ (b ≢ none)

-- How a run may end, of the status that it says, the metrics, and the status that is saved.
pub data EndsIn (who : Identity) (fs : Files) (g : Globals) (x : Ended) : Type 0 where
  -- it throws nothing, and has succeeded
  succeeds :
      x.1 ≡ none
      → x.0.run.context.status ≡ success
      → x.0.globals.metrics ≡ track running success (track queued running g.metrics)
      → lookup who.pipeline_id x.0.globals.runs ≡ some success
      → EndsIn who fs g x
  -- it throws, and has failed
  fails :
      (e : String)
      → x.1 ≡ some e
      → x.0.run.context.status ≡ failed
      → x.0.globals.metrics ≡ track running failed (track queued running g.metrics)
      → (fs.failed_saved ≡ none → lookup who.pipeline_id x.0.globals.runs ≡ some failed)
      → EndsIn who fs g x
  -- a file of its end is not written: it throws and says that it has failed, and counts as a success
  fails_late :
      (e : String)
      → x.1 ≡ some e
      → HasError fs.done_saved fs.done_logged
      → x.0.run.context.status ≡ failed
      → x.0.globals.metrics ≡ track running success (track queued running g.metrics)
      → (fs.failed_saved ≡ none → lookup who.pipeline_id x.0.globals.runs ≡ some failed)
      → EndsIn who fs g x
  -- a file of its start is not written: it throws and says that it runs
  stays :
      (e : String)
      → x.1 ≡ some e
      → HasError fs.start_saved fs.start_logged
      → x.0.run.context.status ≡ running
      → x.0.globals.metrics ≡ track queued running g.metrics
      → EndsIn who fs g x

-- what the `catch` block leaves
record Caught (who : Identity) (fs : Files) (m : Metrics) (x : Ended) : Type 0 where
  thrown : (e : String) × (x.1 ≡ some e)
  told : x.0.run.context.status ≡ failed
  counted : x.0.globals.metrics ≡ m
  saved : fs.failed_saved ≡ none → lookup who.pipeline_id x.0.globals.runs ≡ some failed

rethrown-Caught :
    (who : Identity) (fs : Files) (e : String) (p : Pipelines) (m : Metrics) (a b : Option String)
    → fs.failed_saved ≡ a
    → Caught who fs m (
        rethrown e (
          save_run who a (with_metrics m (with_end failed (some e) p))
          then_run log_history who b "PIPELINE_RUN_FAILED"))
rethrown-Caught who fs e p m none none q = record {
  thrown = (e, refl);
  told = refl;
  counted = refl;
  saved = λ h. lookup-put_self who.pipeline_id failed p.globals.runs;
}
rethrown-Caught who fs e p m none (some f) q = record {
  thrown = (f, refl);
  told = refl;
  counted = refl;
  saved = λ h. lookup-put_self who.pipeline_id failed p.globals.runs;
}
rethrown-Caught who fs e p m (some f) b q = record {
  thrown = (f, refl);
  told = refl;
  counted = refl;
  saved = λ h. ground (arith, q, h);
}

caught-Caught :
    (who : Identity) (fs : Files) (state : PipelineState) (e : String) (p : Pipelines)
    → Caught who fs
        (caught_metrics p.globals.metrics (transition_to failed state p.globals.metrics))
        (caught who fs state (p, some e))
unfolding caught
caught-Caught who fs state e p = rethrown-Caught who fs e p _ fs.failed_saved fs.failed_logged refl

some_not : {a : Option String} {e : String} → a ≡ some e → a ≢ none
some_not q n = ground (arith, q, n)

late-EndsIn :
    (who : Identity) (fs : Files) (g : Globals) (e : String) (p : Pipelines)
    → HasError fs.done_saved fs.done_logged
    → p.globals.metrics ≡ track running success (track queued running g.metrics)
    → EndsIn who fs g (caught who fs success (p, some e))
unfolding transition_to
late-EndsIn who fs g e p b h =
    let k = caught-Caught who fs success e p in
    fails_late k.thrown.0 k.thrown.1 b k.told (k.counted ∙ h) k.saved

succeeded-EndsIn :
    (who : Identity) (fs : Files) (g : Globals) (p : Pipelines) (a b : Option String)
    → fs.done_saved ≡ a
    → fs.done_logged ≡ b
    → p.globals.metrics ≡ track queued running g.metrics
    → EndsIn who fs g (
        caught who fs success (
          save_run who a
            (with_metrics (track running success p.globals.metrics) (with_end success none p))
          then_run log_history who b "PIPELINE_RUN_SUCCESS"))
unfolding transition_to caught
succeeded-EndsIn who fs g p none none qa qb h =
    succeeds refl refl (ap (track running success) h)
      (lookup-put_self who.pipeline_id success p.globals.runs)
succeeded-EndsIn who fs g p none (some e) qa qb h =
    late-EndsIn who fs g e
      (save_run who none
        (with_metrics (track running success p.globals.metrics) (with_end success none p))).0
      (inr (some_not qb)) (ap (track running success) h)
succeeded-EndsIn who fs g p (some e) b qa qb h =
    late-EndsIn who fs g e
      (with_metrics (track running success p.globals.metrics) (with_end success none p))
      (inl (some_not qa)) (ap (track running success) h)

finished-EndsIn :
    (who : Identity) (fs : Files) (g : Globals) (x : Ended)
    → x.0.globals.metrics ≡ track queued running g.metrics
    → EndsIn who fs g (finished who fs x)
unfolding transition_to
finished-EndsIn who fs g (p, none) h =
    succeeded-EndsIn who fs g p fs.done_saved fs.done_logged refl refl h
finished-EndsIn who fs g (p, some e) h =
    let k = caught-Caught who fs running e p in
    fails k.thrown.0 k.thrown.1 k.told (k.counted ∙ ap (track running failed) h) k.saved

started-EndsIn :
    (who : Identity) (fs : Files) (secrets : Dict String) (config : Config) (w : World)
    (g : Globals) (a b : Option String)
    → fs.start_saved ≡ a
    → fs.start_logged ≡ b
    → EndsIn who fs g (
        save_run who a (with_metrics (track queued running g.metrics) (begun who config w g))
        then_run log_history who b "PIPELINE_RUN_STARTED"
        then_run (λ p. finished who fs (
            run_stages who config.stages
              (record p { run = Runner.in_context (inject secrets) p.run }))))
started-EndsIn who fs secrets config w g none none qa qb =
    finished-EndsIn who fs g (run_stages who config.stages _)
      (run_stages-metrics who config.stages _)
started-EndsIn who fs secrets config w g none (some e) qa qb =
    stays e refl (inr (some_not qb)) refl refl
started-EndsIn who fs secrets config w g (some e) b qa qb =
    stays e refl (inl (some_not qa)) refl refl

-- A run ends in one of four ways. It throws nothing, and `SUCCESS` is its own status, the status that
-- is saved under its identifier and the transition that the metrics count. It throws an error, and
-- `FAILED` is, where the `catch` block can save it. Or a file that is written after the transition to
-- `SUCCESS` cannot be: it throws and has the status `FAILED`, and the metrics count a success. Or
-- a file that is written before the stages cannot be: it throws, and keeps the status `RUNNING`. Every
-- way counts one run that was started, and no other end.
pub run-EndsIn :
    (who : Identity) (fs : Files) (secrets : Dict String) (config : Config) (w : World)
    (g : Globals)
    → EndsIn who fs g (run who fs secrets config w g)
unfolding run transition_to
run-EndsIn who fs secrets config w g =
    started-EndsIn who fs secrets config w g fs.start_saved fs.start_logged refl refl
