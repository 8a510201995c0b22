-- ===== src/Lifecycle/Total.antt =====
-- Rules for the methods that return whatever state they are called in.
use swr_ddd.Common.{
  ◌≡◌, refl, Bool, true, false, none, Outcome, NoneType, returned, raised, did_return,
  if◌then◌else◌,
}
use swr_ddd.Lifecycle.State.{
  World, Service, Exec, Error, Call, pure, raise, gets, modify, when, attempt, call, continue,
  forget, ◌>>=◌,
}

-- The method returns, from every state.
pub record Total {A : Type 0} (m : Exec A) : Type 0 where
  pub at : (s : Service) → did_return (m s).0 ≡ true

module _ {A : Type 0} where
  pub Total-pure : (a : A) → Total (pure a)
  unfolding pure
  Total-pure a = record { at = λ s. refl }

  pub Total-gets : (f : Service → A) → Total (gets f)
  unfolding gets
  Total-gets f = record { at = λ s. refl }

module _ {A B : Type 0} where
  continue-Total :
      (f : A → Exec B) (r : Outcome Error A) (s : Service)
      → ((a : A) → Total (f a))
      → did_return r ≡ true
      → did_return (continue r f s).0 ≡ true
  continue-Total f (returned a) s k h = (k a).at s
  continue-Total f (raised e) s k h = cc

  pub Total-bind :
      (m : Exec A) (f : A → Exec B) → Total m → ((a : A) → Total (f a)) → Total (m >>= f)
  unfolding ◌>>=◌
  Total-bind m f tm tf = record { at = λ s. continue-Total f (m s).0 (m s).1 tf (tm.at s) }

pub Total-when : (b : Bool) (m : Exec NoneType) → Total m → Total (when b m)
unfolding when
Total-when true m k = k
Total-when false m k = record { at = λ s. refl }

pub Total-if :
    {A : Type 0} (b : Bool) (m n : Exec A) → Total m → Total n → Total (if b then m else n)
Total-if true m n tm tn = tm
Total-if false m n tm tn = tn

pub Total-modify : (f : Service → Service) → Total (modify f)
unfolding modify
Total-modify f = record { at = λ s. refl }

attempt_total : (r : Outcome Error NoneType) → did_return (forget r) ≡ true
attempt_total (returned a) = refl
attempt_total (raised e) = refl

pub Total-attempt : (m : Exec NoneType) → Total (attempt m)
unfolding attempt
Total-attempt m = record { at = λ s. attempt_total (m s).0 }

pub Total-call : (w : World) (k : Call) → w.answer k ≡ none → Total (call w k)
unfolding call
Total-call w k h = record { at = λ s. rw h }

pub ruleset total_rules = (
  Total-pure, Total-gets, Total-bind, Total-when, Total-modify, Total-attempt, Total-call, Total-if,
)

-- The method returns this value, from every state.
pub record Returns {A : Type 0} (a : A) (m : Exec A) : Type 0 where
  pub at : (s : Service) → (m s).0 ≡ returned a

module _ {A B : Type 0} {b : B} where
  continue-Returns :
      (f : A → Exec B) (r : Outcome Error A) (s : Service)
      → ((a : A) → Returns b (f a))
      → did_return r ≡ true
      → (continue r f s).0 ≡ returned b
  continue-Returns f (returned a) s k h = (k a).at s
  continue-Returns f (raised e) s k h = cc

  pub Returns-later :
      (m : Exec A) (f : A → Exec B) → Total m → ((a : A) → Returns b (f a)) → Returns b (m >>= f)
  unfolding ◌>>=◌
  Returns-later m f tm rf = record { at = λ s. continue-Returns f (m s).0 (m s).1 rf (tm.at s) }

pub Returns-pure : {A : Type 0} (a : A) → Returns a (pure a)
unfolding pure
Returns-pure a = record { at = λ s. refl }

pub Returns-if :
    {A : Type 0} {a : A} (b : Bool) (m n : Exec A)
    → Returns a m
    → Returns a n
    → Returns a (if b then m else n)
Returns-if true m n rm rn = rm
Returns-if false m n rm rn = rn

-- The method raises, from every state.
pub record Raises {A : Type 0} (m : Exec A) : Type 0 where
  pub at : (s : Service) → did_return (m s).0 ≡ false

module _ {A B : Type 0} where
  continue-Raises :
      (f : A → Exec B) (r : Outcome Error A) (s : Service)
      → ((a : A) → Raises (f a))
      → did_return (continue r f s).0 ≡ false
  continue-Raises f (returned a) s k = (k a).at s
  continue-Raises f (raised e) s k = refl

  continue_raised :
      (f : A → Exec B) (r : Outcome Error A) (s : Service)
      → did_return r ≡ false
      → did_return (continue r f s).0 ≡ false
  continue_raised f (returned a) s h = cc
  continue_raised f (raised e) s h = refl

  pub Raises-first : (m : Exec A) (f : A → Exec B) → Raises m → Raises (m >>= f)
  unfolding ◌>>=◌
  Raises-first m f r = record { at = λ s. continue_raised f (m s).0 (m s).1 (r.at s) }

  pub Raises-later : (m : Exec A) (f : A → Exec B) → ((a : A) → Raises (f a)) → Raises (m >>= f)
  unfolding ◌>>=◌
  Raises-later m f rf = record { at = λ s. continue-Raises f (m s).0 (m s).1 rf }

pub Raises-raise : {A : Type 0} (e : Error) → Raises (raise {A = A} e)
unfolding raise
Raises-raise e = record { at = λ s. refl }

-- No call on another object raises.
abbrev pub IsCalm : World → Type 0
IsCalm w = (k : Call) → w.answer k ≡ none
