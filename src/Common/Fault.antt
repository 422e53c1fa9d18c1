-- ===== src/Common/Fault.antt =====
-- Undefined behaviour as a value: `fault` is a null or dangling pointer followed, or an access
-- outside an object. What the program does from there on is not modelled.

use mathlib.Core.Bool.{Bool, true, false}
use ridingthecode.Common.Tests.{if◌then◌else◌}
use mathlib.Core.Path.{◌≡◌, refl, ap}

pub data Fault {ℓ} (A : Type ℓ) : Type ℓ where
  ok : A → Fault A
  fault : Fault A

infixl 5 ◌>>=◌
abbrev pub ◌>>=◌ {ℓ κ} : {A : Type ℓ} {B : Type κ} → Fault A → (A → Fault B) → Fault B
ok a >>= f = f a
fault >>= f = fault

-- What holds of the result where there is no fault.
abbrev pub OnOk {ℓ κ} : {A : Type ℓ} → (A → Type κ) → Fault A → Type κ
OnOk P (ok a) = P a
OnOk P fault = Unit {κ}

pub >>=-OnOk {ℓ κ μ ν} :
    {A : Type ℓ} {B : Type κ} (P : A → Type μ) (Q : B → Type ν) (m : Fault A) (f : A → Fault B)
    → OnOk P m
    → ((a : A) → P a → OnOk Q (f a))
    → OnOk Q (m >>= f)
>>=-OnOk P Q (ok a) f h k = k a h
>>=-OnOk P Q fault f h k = tt

pub ok->>= {ℓ κ} :
    {A : Type ℓ} {B : Type κ} {m : Fault A} (f : A → Fault B) {a : A} → m ≡ ok a → (m >>= f) ≡ f a
ok->>= f e = ap (λ m. m >>= f) e

pub fault->>= {ℓ κ} :
    {A : Type ℓ} {B : Type κ} {m : Fault A} (f : A → Fault B) → m ≡ fault → (m >>= f) ≡ fault
fault->>= f e = ap (λ m. m >>= f) e

pub >>=_fault {ℓ κ} :
    {A : Type ℓ} {B : Type κ} (m : Fault A) → (let z : Fault B = fault in m >>= (λ _. z)) ≡ fault
>>=_fault (ok a) = refl
>>=_fault fault = refl

pub OnOk-if {ℓ κ} :
    {A : Type ℓ} (P : A → Type κ) (b : Bool) (m n : Fault A)
    → OnOk P m
    → OnOk P n
    → OnOk P (if b then m else n)
OnOk-if P true m n h k = h
OnOk-if P false m n h k = k

pub OnOk-map {ℓ κ μ} :
    {A : Type ℓ} {B : Type κ} (P : B → Type μ) (m : Fault A) (f : A → B)
    → ((a : A) → P (f a))
    → OnOk P (m >>= (λ a. ok (f a)))
OnOk-map P (ok a) f h = h a
OnOk-map P fault f h = tt
