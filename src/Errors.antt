-- ===== src/Errors.antt =====
-- errors.go: the stable error codes, and fallible results.
use hookbound.Base.{Bool, true, false, ◌≡◌, refl, ◌⊎◌, inl, inr, arith}

-- `Code`, in the order of the constants.
pub data Code : Type 0 where
  invalid_configuration invalid_message invalid_url unsafe_destination body_too_large : Code
  invalid_signature expired_signature replay unknown_event decode_failed handler_failed : Code
  transport_failed response_read_failed persistence_failed conflict internal : Code

-- A non-nil Go `error`, as far as `errors.As(err, **Error)` sees it: the outermost `*Error` in its
-- chain gives the code, and `foreign` is an error with none in its chain.
-- Messages and causes are not kept: nothing but a log reads them.
pub data Error : Type 0 where
  coded : Code → Error
  foreign : Error

-- ErrorCode of a non-nil error.
unfoldable pub error_code : Error → Code
error_code (coded c) = c
error_code foreign = internal

pub data Result {ℓ} (T : Type ℓ) : Type ℓ where
  ok : (value : T) → Result T
  err : (error : Error) → Result T

infixl 5 ◌>>=◌ ◌>>◌
-- The next call runs only if this one succeeded.
abbrev pub ◌>>=◌ {ℓ κ} : {T : Type ℓ} {U : Type κ} → Result T → (next : T → Result U) → Result U
ok value >>= next = next value
err error >>= next = err error

abbrev pub ◌>>◌ {ℓ} : {U : Type ℓ} → Result (Unit {0}) → (next : Result U) → Result U
call >> next = call >>= λ done. next

-- `if b { return NewError(c, …) }`.
abbrev pub reject_if : Bool → Code → Result (Unit {0})
reject_if true c = err (coded c)
reject_if false c = ok tt

-- `if err != nil { return NewError(c, …, err) }`: an outer code hides the cause's.
abbrev pub recode {ℓ} : {A : Type ℓ} → Code → Result A → Result A
recode c (ok a) = ok a
recode c (err e) = err (coded c)

abbrev pub is_ok {ℓ} : {A : Type ℓ} → Result A → Bool
is_ok (ok a) = true
is_ok (err e) = false

-- Both calls of a chain that succeeds have succeeded.
pub >>=-eq-ok {ℓ κ} :
    {T : Type ℓ} {U : Type κ} (call : Result T) (next : T → Result U) {answer : U}
    → (call >>= next) ≡ ok answer
    → (value : T) × (call ≡ ok value) × (next value ≡ ok answer)
>>=-eq-ok (ok value) next same = (value, refl, same)
>>=-eq-ok (err error) next same = cc

pub ok_inj {ℓ} : {A : Type ℓ} {a b : A} → ok a ≡ ok b → a ≡ b
ok_inj h = ground (arith, h)

-- A guard that lets pass has not found what it looks for.
pub reject_if-ok : (bad : Bool) (code : Code) → reject_if bad code ≡ ok tt → bad ≡ false
reject_if-ok true code h = cc
reject_if-ok false code h = refl

-- A chain may be bracketed either way, and equal continuations make equal chains.
pub >>=-assoc {ℓ κ ν} :
    {T : Type ℓ} {U : Type κ} {V : Type ν} (call : Result T) (next : T → Result U)
    (last : U → Result V)
    → ((call >>= next) >>= last) ≡ (call >>= λ value. next value >>= last)
>>=-assoc (ok value) next last = refl
>>=-assoc (err error) next last = refl

pub >>=-congr {ℓ κ} :
    {T : Type ℓ} {U : Type κ} (call : Result T) {next other : T → Result U}
    → ((value : T) → next value ≡ other value)
    → (call >>= next) ≡ (call >>= other)
>>=-congr (ok value) same = same value
>>=-congr (err error) same = refl

pub Result-cases {ℓ} :
    {T : Type ℓ} (call : Result T)
    → ((value : T) × (call ≡ ok value)) ⊎ ((error : Error) × (call ≡ err error))
Result-cases (ok value) = inl (value, refl)
Result-cases (err error) = inr (error, refl)
