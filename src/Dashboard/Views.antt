-- ===== src/Dashboard/Views.antt =====
-- platform/shared/read/run-view.ts: of the views of a Run and a Step, the fields that the
-- dashboard's lib/ reads.
use lengentic.Base.{Option, List}
use lengentic.Base.Text.{Text}

pub record StepView : Type 0 where
  pub id : Text
  pub parent_step_id : Option Text
  pub started_at : Option Text
  pub completed_at : Option Text

pub record RunDetailView : Type 0 where
  pub started_at : Option Text
  pub completed_at : Option Text
  pub steps : List StepView
