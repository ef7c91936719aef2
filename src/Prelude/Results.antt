-- ===== src/Prelude/Results.antt =====
-- Python code that returns or raises: a result with the raised error as a value.
use mathlib.Core.Bool.{Bool, true, false}

pub data Result {ℓ} (Raises : Type 0) (Value : Type ℓ) : Type ℓ where
  err : Raises → Result Raises Value
  ok : Value → Result Raises Value

-- `if not test: raise error`
abbrev pub guard : {Raises : Type 0} (test : Bool) (error : Raises) → Result Raises (Unit {0})
guard false error = err error
guard true _ = ok tt

infixl 5 ◌>>=◌ ◌>>◌
-- a statement, then the rest of the block with its value
abbrev pub ◌>>=◌ {ℓ κ} :
    {Raises : Type 0} {Value : Type ℓ} {Next : Type κ} (first : Result Raises Value)
    (rest : Value → Result Raises Next)
    → Result Raises Next
err error >>= _ = err error
ok value >>= rest = rest value

-- a statement that returns None, then the rest of the block
abbrev pub ◌>>◌ {ℓ} :
    {Raises : Type 0} {Next : Type ℓ} (first : Result Raises (Unit {0})) (rest : Result Raises Next)
    → Result Raises Next
err error >> _ = err error
ok _ >> rest = rest
