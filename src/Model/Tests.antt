-- ===== src/Model/Tests.antt =====
-- Concrete runs of src/model.rs.
use camera_adapter.Base.{refl}
use camera_adapter.Model.{
  accepted, queued, acquiring, encoding, persisting, succeeded, can_transition_to,
}
use camera_adapter.Model.Stages.{History, start, step_to}

-- The full pipeline of a capture that is converted before it is stored.
pipeline : History accepted succeeded 5
unfolding can_transition_to
pipeline =
    step_to {t = persisting}
      (step_to {t = encoding}
        (step_to {t = acquiring} (step_to {t = queued} (step_to {t = accepted} start refl) refl)
          refl)
        refl)
      refl
