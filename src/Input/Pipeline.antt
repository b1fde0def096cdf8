-- ===== src/Input/Pipeline.antt =====
-- atria-input/src/epoch.rs: the pipeline from records to batches, and the epochs that cut it.
use atria.Base.{
  ℕ, Bool, true, false, not, Option, none, some, List, ◌==◌, if◌then◌else◌, Result, ok, err,
  checked_add,
}
use atria.Input.Key.{
  InputError, RawInputEvent, ReportAccumulator, no_reports, ReportStatus, push_report, KeyEvent,
  KeyNormalizer, no_keys, normalize, suppress_held, reacquire,
}

pub data EpochChange : Type 0 where
  seat device routing : EpochChange

pub data InputBatch : Type 0 where
  keys : ℕ → List KeyEvent → InputBatch
  discontinuity : ℕ → InputBatch

pub data PipelineStatus : Type 0 where
  pending : PipelineStatus
  batch : InputBatch → PipelineStatus
  reacquire_key_state : PipelineStatus

pub record InputPipeline : Type 0 where
  pub reports : ReportAccumulator
  pub keys : KeyNormalizer
  pub epoch : ℕ
  pub needs_reacquisition : Bool

abbrev pub new_pipeline : InputPipeline
new_pipeline = record {
  reports = no_reports;
  keys = no_keys;
  epoch = 1;
  needs_reacquisition = false;
}

-- Work of another epoch is stale.
unfoldable pub accept : InputPipeline → KeyEvent → Option KeyEvent
accept p event = if event.epoch == p.epoch then some event else none

normalized :
    InputPipeline
    → Result InputError (KeyNormalizer × List KeyEvent)
    → InputPipeline × Result InputError PipelineStatus
normalized p (err e) = (p, err e)
normalized p (ok (k, events)) =
    (record p { keys = k }, ok (PipelineStatus.batch (InputBatch.keys p.epoch events)))

reported :
    InputPipeline
    → Result InputError ReportStatus
    → InputPipeline × Result InputError PipelineStatus
unfolding normalized
reported p (err e) = (p, err e)
reported p (ok ReportStatus.pending) = (p, ok PipelineStatus.pending)
reported p (ok (ReportStatus.complete events)) = normalized p (normalize p.keys p.epoch events)
reported p (ok ReportStatus.discontinuity) =
    (record p { needs_reacquisition = true }, ok PipelineStatus.reacquire_key_state)

unfoldable pub push :
    InputPipeline → RawInputEvent → InputPipeline × Result InputError PipelineStatus
unfolding reported push_report
push p event =
    if p.needs_reacquisition
    then (p, err InputError.reacquisition_required)
    else (let (r, status) = push_report p.reports event in
        reported (record p { reports = r }) status)

unfoldable pub advance_to : InputPipeline → Option ℕ → InputPipeline × Result InputError ℕ
unfolding suppress_held
advance_to p none = (p, err InputError.epoch_overflow)
advance_to p (some epoch) =
    (record p { epoch = epoch; reports = no_reports; keys = suppress_held p.keys }, ok epoch)

unfoldable pub advance : InputPipeline → EpochChange → InputPipeline × Result InputError ℕ
unfolding advance_to
advance p change = advance_to p (checked_add p.epoch 1)

reacquired :
    List ℕ → InputPipeline × Result InputError ℕ → InputPipeline × Result InputError InputBatch
unfolding reacquire
reacquired bitmap (p, err e) = (p, err e)
reacquired bitmap (p, ok epoch) = (
  record p { keys = reacquire bitmap p.keys; needs_reacquisition = false },
  ok (InputBatch.discontinuity p.epoch),
)

-- `InputPipeline::reacquire`.
unfoldable pub reacquire_state :
    InputPipeline → List ℕ → InputPipeline × Result InputError InputBatch
unfolding reacquired advance
reacquire_state p bitmap =
    if not p.needs_reacquisition
    then (p, err InputError.reacquisition_not_required)
    else reacquired bitmap (advance p EpochChange.device)

unfoldable pub initialize_key_state : InputPipeline → List ℕ → InputPipeline
unfolding reacquire
initialize_key_state p bitmap = record p { keys = reacquire bitmap p.keys }
