-- ===== src/Common/Options.antt =====
-- What holds of the result of code that may not return.
use mathlib.Core.Path.{◌≡◌, subst}
use mathlib.Core.Bool.{Bool, true, false}
use mathlib.Core.Option.{Option, none, some}
use rv32imac_soc.Common.Tests.{if◌then◌else◌}

abbrev pub Yields : {A : Type 0} → (A → Type 0) → Option A → Type 0
Yields P none = Unit
Yields P (some a) = P a

pub Yields-if :
    {A : Type 0} (P : A → Type 0) (b : Bool) (o1 o2 : Option A)
    → Yields P o1
    → Yields P o2
    → Yields P (if b then o1 else o2)
Yields-if P true o1 o2 first second = first
Yields-if P false o1 o2 first second = second

pub some_result :
    {A : Type 0} (P : A → Type 0) (o : Option A) (a : A) → o ≡ some a → Yields P o → P a
some_result P o a found h = subst (Yields P) found h

pub Yields-map :
    {A : Type 0} {P Q : A → Type 0} (o : Option A) → ((a : A) → P a → Q a) → Yields P o → Yields Q o
Yields-map none f h = h
Yields-map (some a) f h = f a h
