-- ===== src/Lifecycle/Logic.antt =====
-- Rules for what a method keeps, ensures when it returns, and leaves behind however it ends.
use swr_ddd.Common.{
  ◌≡◌, Bool, true, false, List, Outcome, NoneType, returned, raised, if◌then◌else◌,
}
use swr_ddd.Lifecycle.State.{
  World, Service, Exec, Error, Call, pure, raise, gets, modify, when, attempt, call, continue,
  ◌>>=◌,
}

-- `P` holds after the method if it held before, whether it returns or raises.
pub record Keeps {A : Type 0} (P : Service → Type 0) (m : Exec A) : Type 0 where
  pub at : (s : Service) → P s → P (m s).1

abbrev pub OnReturn : {A : Type 0} → (Service → Type 0) → Outcome Error A × Service → Type 0
OnReturn Q (returned a, s) = Q s
OnReturn Q (raised e, s) = Unit

-- `Q` holds after the method if it returns.
pub record Ensures {A : Type 0} (Q : Service → Type 0) (m : Exec A) : Type 0 where
  pub at : (s : Service) → OnReturn Q (m s)

-- `Q` holds after the method, whether it returns or raises.
pub record Leaves {A : Type 0} (Q : Service → Type 0) (m : Exec A) : Type 0 where
  pub at : (s : Service) → Q (m s).1

module _ {A : Type 0} {P : Service → Type 0} where
  pub Keeps-pure : (a : A) → Keeps P (pure a)
  unfolding pure
  Keeps-pure a = record { at = λ s h. h }

  pub Keeps-raise : (e : Error) → Keeps P (raise {A = A} e)
  unfolding raise
  Keeps-raise e = record { at = λ s h. h }

  pub Keeps-gets : (f : Service → A) → Keeps P (gets f)
  unfolding gets
  Keeps-gets f = record { at = λ s h. h }

  pub Ensures-raise : (e : Error) → Ensures P (raise {A = A} e)
  unfolding raise
  Ensures-raise e = record { at = λ s. tt }

returns_kept :
    {B : Type 0} (P : Service → Type 0) (r : Outcome Error B) (t : Service)
    → P t
    → OnReturn P (r, t)
returns_kept P (returned b) t p = p
returns_kept P (raised e) t p = tt

module _ {A B : Type 0} {P : Service → Type 0} where
  continue_keeps :
      (f : A → Exec B) (r : Outcome Error A) (s : Service)
      → ((a : A) → Keeps P (f a))
      → P s
      → P (continue r f s).1
  continue_keeps f (returned a) s k h = (k a).at s h
  continue_keeps f (raised e) s k h = h

  pub Keeps-bind :
      (m : Exec A) (f : A → Exec B) → Keeps P m → ((a : A) → Keeps P (f a)) → Keeps P (m >>= f)
  unfolding ◌>>=◌
  Keeps-bind m f km kf = record { at = λ s h. continue_keeps f (m s).0 (m s).1 kf (km.at s h) }

  continue-Ensures :
      (f : A → Exec B) (r : Outcome Error A) (s : Service)
      → ((a : A) → Ensures P (f a))
      → OnReturn P (continue r f s)
  continue-Ensures f (returned a) s k = (k a).at s
  continue-Ensures f (raised e) s k = tt

  -- the rest of the block ensures it
  pub Ensures-later :
      (m : Exec A) (f : A → Exec B) → ((a : A) → Ensures P (f a)) → Ensures P (m >>= f)
  unfolding ◌>>=◌
  Ensures-later m f kf = record { at = λ s. continue-Ensures f (m s).0 (m s).1 kf }

  continue_kept :
      (f : A → Exec B) (r : Outcome Error A) (s : Service)
      → ((a : A) → Keeps P (f a))
      → OnReturn P (r, s)
      → OnReturn P (continue r f s)
  continue_kept f (returned a) s k h = returns_kept P (f a s).0 (f a s).1 ((k a).at s h)
  continue_kept f (raised e) s k h = tt

  -- the first call ensures it and the rest of the block keeps it
  pub Ensures-here :
      (m : Exec A) (f : A → Exec B) → Ensures P m → ((a : A) → Keeps P (f a)) → Ensures P (m >>= f)
  unfolding ◌>>=◌
  Ensures-here m f em kf = record { at = λ s. continue_kept f (m s).0 (m s).1 kf (em.at s) }

  -- the first call leaves it and the rest of the block keeps it
  pub Leaves-here :
      (m : Exec A) (f : A → Exec B) → Leaves P m → ((a : A) → Keeps P (f a)) → Leaves P (m >>= f)
  unfolding ◌>>=◌
  Leaves-here m f lm kf = record { at = λ s. continue_keeps f (m s).0 (m s).1 kf (lm.at s) }

module _ {P : Service → Type 0} where
  pub Keeps-when : (b : Bool) (m : Exec NoneType) → Keeps P m → Keeps P (when b m)
  unfolding when
  Keeps-when true m k = k
  Keeps-when false m k = record { at = λ s h. h }

  pub Keeps-attempt : (m : Exec NoneType) → Keeps P m → Keeps P (attempt m)
  unfolding attempt
  Keeps-attempt m k = record { at = k.at }

  pub Keeps-modify : (f : Service → Service) → ((s : Service) → P s → P (f s)) → Keeps P (modify f)
  unfolding modify
  Keeps-modify f k = record { at = k }

  pub Ensures-modify : (f : Service → Service) → ((s : Service) → P (f s)) → Ensures P (modify f)
  unfolding modify
  Ensures-modify f k = record { at = k }

  pub Leaves-modify : (f : Service → Service) → ((s : Service) → P (f s)) → Leaves P (modify f)
  unfolding modify
  Leaves-modify f k = record { at = k }

  pub Keeps-if :
      {A : Type 0} (b : Bool) (m n : Exec A) → Keeps P m → Keeps P n → Keeps P (if b then m else n)
  Keeps-if true m n km kn = km
  Keeps-if false m n km kn = kn

-- what is left behind anyhow is ensured
pub Ensures-Leaves : {A : Type 0} {P : Service → Type 0} (m : Exec A) → Leaves P m → Ensures P m
Ensures-Leaves {P} m l = record { at = λ s. returns_kept P (m s).0 (m s).1 (l.at s) }

-- the branch that a false test takes
pub otherwise :
    {A : Type 0} (Q : Outcome Error A × Service → Type 0) (b : Bool) (m n : Exec A) (s : Service)
    → b ≡ false
    → Q (n s)
    → Q ((if b then m else n) s)
otherwise Q true m n s h r = cc
otherwise Q false m n s h r = r

-- what is ensured implies more
pub OnReturn-map :
    {A : Type 0} (P Q : Service → Type 0) (r : Outcome Error A × Service)
    → ((s : Service) → P s → Q s)
    → OnReturn P r
    → OnReturn Q r
OnReturn-map P Q (returned a, s) f p = f s p
OnReturn-map P Q (raised e, s) f p = tt

both-OnReturn :
    {A : Type 0} (P Q : Service → Type 0) (r : Outcome Error A) (s : Service)
    → OnReturn P (r, s)
    → OnReturn Q (r, s)
    → OnReturn (λ t. P t × Q t) (r, s)
both-OnReturn P Q (returned a) s p q = (p, q)
both-OnReturn P Q (raised e) s p q = tt

pub Ensures-both :
    {A : Type 0} (P Q : Service → Type 0) (m : Exec A)
    → Ensures P m
    → Ensures Q m
    → Ensures (λ s. P s × Q s) m
Ensures-both P Q m p q = record { at = λ s. both-OnReturn P Q (m s).0 (m s).1 (p.at s) (q.at s) }

-- A predicate that does not read the trace.
pub record IsQuiet (P : Service → Type 0) : Type 0 where
  pub trace : (s : Service) (t : List Call) → P s → P (record s { trace = t })

module _ {P : Service → Type 0} (q : IsQuiet P) (w : World) where
  pub Keeps-call : (k : Call) → Keeps P (call w k)
  unfolding call
  Keeps-call k = record { at = λ s h. q.trace s _ h }

pub ruleset keeps_rules = (
  Keeps-pure, Keeps-raise, Keeps-gets, Keeps-bind, Keeps-when, Keeps-attempt, Keeps-modify,
  Keeps-if,
)
