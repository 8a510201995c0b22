-- ===== src/Lifecycle/Steps.antt =====
-- The order of the steps that `start` and `stop` record.
pub mod Shutdown
pub mod Startup
use swr_ddd.Common.{
  ℕ, ◌+◌, ◌≡◌, refl, Bool, true, false, not, Option, none, some, List, [], ◌∷◌, ◌++◌, arith,
  NoneType, Outcome, returned, raised, if◌then◌else◌,
}
use mathlib.Core.List.{append-nil, append_assoc}
use swr_ddd.Common.Text.{Text}
use swr_ddd.Lifecycle.State.{Service, Exec, Error, continue, ◌>>=◌, pure}
use swr_ddd.Lifecycle.Logic.{Keeps, OnReturn, OnReturn-map}

-- If the method returns, the steps in `f` are those from before, then `ks`.
pub record Appends {A K : Type 0} (f : Service → List K) (ks : List K) (m : Exec A) : Type 0 where
  pub at : (s : Service) → OnReturn (λ t. f t ≡ f s ++ ks) (m s)

module _ {A K : Type 0} where
  kept_appends :
      (f : Service → List K) (r : Outcome Error A) (s t : Service)
      → f t ≡ f s
      → OnReturn (λ u. f u ≡ f s ++ []) (r, t)
  kept_appends f (returned a) s t h = rw (h, append-nil)
  kept_appends f (raised e) s t h = tt

  -- a method that keeps every value of the steps
  pub Appends-nothing :
      (f : Service → List K) (m : Exec A)
      → ((ks : List K) → Keeps (λ s. f s ≡ ks) m)
      → Appends f [] m
  Appends-nothing f m k = record {
    at = λ s. kept_appends f (m s).0 s (m s).1 ((k (f s)).at s refl);
  }

module _ {A B K : Type 0} (f : Service → List K) where
  continue-Appends :
      (g : A → Exec B) (r : Outcome Error A) (s t : Service) (ks js : List K)
      → ((a : A) → Appends f js (g a))
      → OnReturn (λ u. f u ≡ f s ++ ks) (r, t)
      → OnReturn (λ u. f u ≡ f s ++ (ks ++ js)) (continue r g t)
  continue-Appends g (returned a) s t ks js k h =
      OnReturn-map (λ u. f u ≡ f t ++ js) (λ u. f u ≡ f s ++ (ks ++ js)) (g a t)
        (λ u p. rw (p, h, append_assoc)) ((k a).at t)
  continue-Appends g (raised e) s t ks js k h = tt

  pub Appends-bind :
      (ks js : List K) (m : Exec A) (g : A → Exec B)
      → Appends f ks m
      → ((a : A) → Appends f js (g a))
      → Appends f (ks ++ js) (m >>= g)
  unfolding ◌>>=◌
  Appends-bind ks js m g am ag = record {
    at = λ s. continue-Appends g (m s).0 s (m s).1 ks js ag (am.at s);
  }

  -- a step, then the rest
  pub Appends-step :
      (k : K) (js : List K) (m : Exec A) (g : A → Exec B)
      → Appends f (k ∷ []) m
      → ((a : A) → Appends f js (g a))
      → Appends f (k ∷ js) (m >>= g)
  Appends-step k js m g am ag = Appends-bind (k ∷ []) js m g am ag

  -- a call that records nothing, then the rest
  pub Appends-later :
      (js : List K) (m : Exec A) (g : A → Exec B)
      → ((ks : List K) → Keeps (λ s. f s ≡ ks) m)
      → ((a : A) → Appends f js (g a))
      → Appends f js (m >>= g)
  Appends-later js m g k ag = Appends-bind [] js m g (Appends-nothing f m k) ag
