-- ===== src/Fuse/Handles.antt =====
-- What any run of requests keeps: the clients of the pool.
use marc_fs.Base.{ℕ, ◌≡◌, refl, some, List, [], ◌∷◌, ok}
use marc_fs.Hooks.{Setup, Fs}
use marc_fs.Hooks.Frames.{Frame}
use marc_fs.Hooks.Frames.Idle.{idle_frame, idle-FileFrame}
use marc_fs.Hooks.Frames.Files.{FileFrame}
use marc_fs.Fuse.{Request, serve, serve_all, named}
use marc_fs.Fuse.Frames.{bind_keeps, serve-Rel}

-- The open object that each request names, if it names one, has the property.
unfoldable pub AllName : (ℕ → Type 0) → List Request → Type 0
AllName IsNamed [] = Unit {0}
AllName IsNamed (r ∷ rs) = ((h : ℕ) → named r ≡ some h → IsNamed h) × AllName IsNamed rs

module _ (U : Setup) where
  serve_all-Rel :
      (F : Frame U) (IsNamed : ℕ → Type 0) (rs : List Request) (fs : Fs U)
      → FileFrame U F IsNamed
      → AllName IsNamed rs
      → F.Rel fs (serve_all U rs fs).1
  unfolding serve_all AllName
  serve_all-Rel F IsNamed [] fs G h = F.same fs
  serve_all-Rel F IsNamed (r ∷ rs) fs G (first, rest) =
      bind_keeps U F _ (serve U r fs)
        (serve-Rel U F r fs (record {
          sets = λ k n m s e. G.sets k n m s (first k e);
          drops = λ k s e. G.drops k s (first k e);
          opens = G.opens;
        }))
        λ x s.
          bind_keeps U F (λ xs u. (ok (x ∷ xs), u)) (serve_all U rs s)
            (serve_all-Rel F IsNamed rs s G rest) (λ xs u. F.same u)

  all_name : (rs : List Request) → AllName (λ h. Unit {0}) rs
  unfolding AllName
  all_name [] = tt
  all_name (r ∷ rs) = (λ h e. tt, all_name rs)

  pub serve-idle : (r : Request) (fs : Fs U) → (serve U r fs).1.idle ≡ fs.idle
  serve-idle r fs =
      serve-Rel U (idle_frame U) r fs
        (record { sets = λ h n m s x e. refl; drops = λ h s x. refl; opens = λ v s. refl })

  -- After any requests, whatever they answer and whatever the server does, as many clients are idle
  -- as before.
  pub serve_all-idle : (rs : List Request) (fs : Fs U) → (serve_all U rs fs).1.idle ≡ fs.idle
  serve_all-idle rs fs =
      serve_all-Rel (idle_frame U) (λ h. Unit {0}) rs fs (idle-FileFrame U) (all_name rs)
