-- ===== src/Base/Results.antt =====
-- A call that may raise: its value, or the exception.
use mathlib.Core.Path.{◌≡◌, refl}
use mathlib.Core.Bool.{Bool, true, false}

pub data Result {ℓ} (E A : Type ℓ) : Type ℓ where
  ok : A → Result E A
  err : E → Result E A

infixl 5 ◌>>=◌ ◌>>◌
abbrev pub ◌>>=◌ {ℓ} : {E A B : Type ℓ} → Result E A → (A → Result E B) → Result E B
err raised >>= rest = err raised
ok value >>= rest = rest value

abbrev pub ◌>>◌ {ℓ} : {E B : Type ℓ} → Result E (Unit {ℓ}) → Result E B → Result E B
check >> rest = check >>= λ _. rest

-- `if test: raise error`
abbrev pub raise_if : {E : Type 0} → Bool → E → Result E (Unit {0})
raise_if false error = ok tt
raise_if true error = err error

-- A block that returns has run its first call to a value, and the rest on that value.
pub bind-ok {ℓ} :
    {E A B : Type ℓ} (call : Result E A) (rest : A → Result E B) {returned : B}
    → (call >>= rest) ≡ ok returned
    → (value : A) × (call ≡ ok value) × (rest value ≡ ok returned)
bind-ok (err raised) rest h = cc
bind-ok (ok value) rest h = (value, refl, h)

-- A call whose rests return the same on each value returns the same.
pub bind_cong {ℓ} :
    {E A B : Type ℓ} (call : Result E A) (rest other : A → Result E B)
    → ((value : A) → rest value ≡ other value)
    → (call >>= rest) ≡ (call >>= other)
bind_cong (err raised) rest other h = refl
bind_cong (ok value) rest other h = h value

-- A block that returns has passed its first check.
pub raise_if-ok :
    {E B : Type 0} (test : Bool) (error : E) (rest : Result E B) {returned : B}
    → (raise_if test error >> rest) ≡ ok returned
    → (test ≡ false) × (rest ≡ ok returned)
raise_if-ok true error rest h = cc
raise_if-ok false error rest h = (refl, h)

pub raise_if-false :
    {E : Type 0} (test : Bool) (error : E) → raise_if test error ≡ ok tt → test ≡ false
raise_if-false true error h = cc
raise_if-false false error h = refl
