-- ===== src/Base/Result.antt =====
-- A run of the code: a value, or what stops it.
use mathlib.Core.Path.{◌≡◌, refl}

-- A null pointer is read through, the last element of an empty vector or an element out of range
-- is taken, a mutex is locked that stays held, an exception is thrown that nothing catches, or a value is read
-- that was never set.
pub data Fault : Type 0 where
  null_deref empty_back out_of_range blocked thrown uninitialised : Fault

pub data Result {ℓ} (V : Type ℓ) : Type ℓ where
  err : (stopped : Fault) → Result V
  ok : (value : V) → Result V

infixl 5 ◌>>=◌
abbrev pub ◌>>=◌ {κ ℓ} : {V : Type κ} {W : Type ℓ} (run : Result V) (next : V → Result W) → Result W
err stopped >>= next = err stopped
ok value >>= next = next value

-- A run that ends has come through its first part.
pub >>=-eq-ok {κ ℓ} :
    {V : Type κ} {W : Type ℓ} (run : Result V) (next : V → Result W) {w : W}
    → (run >>= next) ≡ ok w
    → (v : V) × (run ≡ ok v) × (next v ≡ ok w)
>>=-eq-ok (err stopped) next h = cc
>>=-eq-ok (ok value) next h = (value, refl, h)

-- Two runs that go on in the same way are the same.
pub >>=-ext {κ ℓ} :
    {V : Type κ} {W : Type ℓ} (run : Result V) (f g : V → Result W)
    → ((v : V) → f v ≡ g v)
    → (run >>= f) ≡ (run >>= g)
>>=-ext (err stopped) f g h = refl
>>=-ext (ok value) f g h = h value
