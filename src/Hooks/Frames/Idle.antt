-- ===== src/Hooks/Frames/Idle.antt =====
-- The number of idle clients, which every callback keeps.
use marc_fs.Base.{◌≡◌, refl, ◌∙◌}
use marc_fs.Retry.Laws.{do_with_retry-KeepsIdle}
use marc_fs.Hooks.{Setup, pool}
use marc_fs.Hooks.Frames.{Frame}
use marc_fs.Hooks.Frames.Files.{FileFrame}

module _ (U : Setup) where
  abbrev pub idle_frame : Frame U
  idle_frame = record {
    Rel = λ a b. b.idle ≡ a.idle;
    same = λ fs. refl;
    chain = λ p q. q ∙ p;
    of_world = λ w fs. refl;
    of_cache = λ c fs. refl;
    of_clock = λ n z fs. refl;
    of_retry = λ m h. do_with_retry-KeepsIdle (pool U) (λ n t. refl) m h;
  }

  pub idle-FileFrame : FileFrame U idle_frame (λ h. Unit {0})
  idle-FileFrame = record { sets = λ h n m s x e. refl; drops = λ h s x. refl; opens = λ v s. refl }
