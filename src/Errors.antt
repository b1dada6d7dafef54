-- ===== src/Errors.antt =====
-- src/quantara/errors.py and the exception classes of the modelled modules. A function that may
-- raise returns a `Result`; the message of an exception is not kept.
use quantara.Prelude.{Bool, true, false, ◌≡◌, refl, subst}

-- One constructor for each exception class that the modelled code raises. `diverged` stands for no
-- exception: it is what a loop of the model returns when its fuel runs out.
pub data Error : Type 0 where
  undersized_parent_dataset : Error
  unordered_minute_input incomplete_group nonzero_source_ignore_in_group : Error
  decimal_precision_or_scale_overflow integer_precision_overflow : Error
  duplicate_open_time reconciliation_mismatch : Error
  source_header_mismatch malformed_timestamp malformed_numeric decimal_overflow : Error
  hash_payload_error kernel_hash_payload_error quantara_error : Error
  publication_error object_collision invalid_pointer : Error
  unsafe_zip_member corrupt_archive : Error
  zero_division_error index_error ill_typed : Error
  value_error type_error jcs_float_rejected : Error
  os_error runtime_error key_error quality_approval_rejected : Error
  diverged : Error

-- What a function that may raise gives: its value, or the exception.
pub data Result {ℓ} (Value : Type ℓ) : Type ℓ where
  err : Error → Result Value
  ok : Value → Result Value

-- `if c: raise E`
abbrev pub raise_if : Bool → Error → Result (Unit {0})
raise_if true e = err e
raise_if false e = ok tt

infixl 5 ◌>>=◌
abbrev pub ◌>>=◌ {ℓ κ} : {A : Type ℓ} {B : Type κ} → Result A → (A → Result B) → Result B
err raised >>= next = err raised
ok value >>= next = next value

infixl 5 ◌>>◌
abbrev pub ◌>>◌ {ℓ} : {B : Type ℓ} → Result (Unit {0}) → Result B → Result B
check >> next = check >>= λ _. next

-- A successful block: its first step succeeded, and so did the rest.
pub >>=-eq-ok {ℓ κ} :
    {A : Type ℓ} {B : Type κ} (first : Result A) (next : A → Result B) {b : B}
    → (first >>= next) ≡ ok b
    → (value : A) × (first ≡ ok value) × (next value ≡ ok b)
>>=-eq-ok (err raised) next h = cc
>>=-eq-ok (ok value) next h = (value, refl, h)

-- A block that is past a guard: the guard's test failed.
pub raise_if-eq-ok {ℓ} :
    {B : Type ℓ} (c : Bool) (e : Error) (k : Result B) {b : B}
    → (raise_if c e >> k) ≡ ok b
    → (c ≡ false) × (k ≡ ok b)
raise_if-eq-ok true e k h = cc
raise_if-eq-ok false e k h = (refl, h)

pub ok_injective {ℓ} : {A : Type ℓ} {a b : A} → ok a ≡ ok b → a ≡ b
ok_injective h = cc

-- What holds of the value if there is one, with a rule for each way to build a block.
pub record Ensures {ℓ κ} {A : Type ℓ} (P : A → Type κ) (r : Result A) : Type (ℓ ⊔ κ) where
  pub at : (a : A) → r ≡ ok a → P a

module _ {ℓ κ} {B : Type ℓ} {P : B → Type κ} where
  pub Ensures-ok : {b : B} → P b → Ensures P (ok b)
  Ensures-ok p = record { at = λ a e. subst P (ok_injective e) p }

  pub Ensures-bind {μ} :
      {A : Type μ} (m : Result A) (f : A → Result B)
      → ((a : A) → m ≡ ok a → Ensures P (f a))
      → Ensures P (m >>= f)
  Ensures-bind (ok a) f k = k a refl
  Ensures-bind (err e) f k = record { at = λ a h. cc }

  pub Ensures-guard :
      (c : Bool) (e : Error) (k : Result B)
      → (c ≡ false → Ensures P k)
      → Ensures P (raise_if c e >> k)
  Ensures-guard true e k h = record { at = λ a q. cc }
  Ensures-guard false e k h = h refl
