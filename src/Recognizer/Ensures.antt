-- ===== src/Recognizer/Ensures.antt =====
-- What holds of a result of the model, if there is one: a fault and spent fuel are `none`.
use regex.Base.{◌≡◌, refl, Option, none, some}
use regex.Recognizer.Output.{◌>>=◌}

abbrev pub Ensures : {A : Type 0} → (A → Type 0) → Option A → Type 0
Ensures P none = Unit {0}
Ensures P (some a) = P a

pub Ensures-bind :
    {A B : Type 0} (P : A → Type 0) (Q : B → Type 0) (o : Option A) (f : A → Option B)
    → Ensures P o
    → ((a : A) → P a → Ensures Q (f a))
    → Ensures Q (o >>= f)
Ensures-bind P Q none f h k = tt
Ensures-bind P Q (some a) f h k = k a h

pub Ensures-self : {A : Type 0} (o : Option A) → Ensures (λ a. o ≡ some a) o
Ensures-self none = tt
Ensures-self (some a) = refl

pub Ensures-each :
    {A B : Type 0} (Q : B → Type 0) (o : Option A) (f : A → Option B)
    → ((a : A) → Ensures Q (f a))
    → Ensures Q (o >>= f)
Ensures-each Q none f h = tt
Ensures-each Q (some a) f h = h a

-- There is a result, and it satisfies the predicate.
abbrev pub Returns : {A : Type 0} → (A → Type 0) → Option A → Type 0
Returns P none = ⊥
Returns P (some a) = P a

pub Returns-bind :
    {A B : Type 0} (P : A → Type 0) (Q : B → Type 0) (o : Option A) (f : A → Option B)
    → Returns P o
    → ((a : A) → P a → Returns Q (f a))
    → Returns Q (o >>= f)
Returns-bind P Q none f h k = elim h [ ]
Returns-bind P Q (some a) f h k = k a h

pub Returns-weaken :
    {A : Type 0} (P Q : A → Type 0) (o : Option A)
    → Returns P o
    → ((a : A) → P a → Q a)
    → Returns Q o
Returns-weaken P Q none h k = h
Returns-weaken P Q (some a) h k = k a h
