-- ===== src/Failure.antt =====
-- The C++ exceptions that the core throws, as values, and `std::to_string` of an unsigned number.
use zen.Prelude.{Bool, [], false, if◌then◌else◌, ltb, refl, suc, true, zero, ℕ, ◌%◌, ◌+◌, ◌/◌}
use zen.Prelude.{◌∷◌, ◌≡◌, ◌≢◌}
use zen.Binary.{Bytes}

pub data Exception : Type 0 where
  invalid_argument : Bytes → Exception
  out_of_range : Bytes → Exception
  logic_error : Bytes → Exception
  runtime_error : Bytes → Exception
  schema_conflict : Bytes → ℕ → ℕ → ℕ → Exception

pub data Throws {ℓ} (A : Type ℓ) : Type ℓ where
  ok : A → Throws A
  throw : Exception → Throws A

infixl 5 ◌>>=◌ ◌>>◌
-- What follows a call runs on its result, and an exception passes by it.
abbrev pub ◌>>=◌ {ℓ κ} : {A : Type ℓ} {B : Type κ} (m : Throws A) (next : A → Throws B) → Throws B
ok result >>= next = next result
throw x >>= next = throw x

abbrev pub ◌>>◌ {ℓ} : {B : Type ℓ} (check : Throws (Unit {0})) (rest : Throws B) → Throws B
check >> rest = check >>= λ _. rest

-- `if (bad) throw std::invalid_argument(why)`.
abbrev pub refuse_if : Bool → Bytes → Throws (Unit {0})
refuse_if true why = throw (invalid_argument why)
refuse_if false why = ok tt

pub >>=-eq-ok {ℓ κ} :
    {A : Type ℓ} {B : Type κ} (call : Throws A) (next : A → Throws B) {result : B}
    → (call >>= next) ≡ ok result
    → (a : A) × (call ≡ ok a) × (next a ≡ ok result)
>>=-eq-ok (throw x) next h = cc
>>=-eq-ok (ok a) next h = (a, refl, h)

pub ok-injective {ℓ} : {A : Type ℓ} {a b : A} → ok a ≡ ok b → a ≡ b
ok-injective h = cc

pub throw-neq-ok {ℓ} : {A : Type ℓ} {x : Exception} {a : A} → ◌≢◌ {A = Throws A} (throw x) (ok a)
throw-neq-ok h = cc

pub throw-injective {ℓ} :
    {A : Type ℓ} {d e : Exception} → ◌≡◌ {A = Throws A} (throw d) (throw e) → d ≡ e
throw-injective h = cc

pub refuse_if-eq-ok : (b : Bool) (why : Bytes) {u : Unit {0}} → refuse_if b why ≡ ok u → b ≡ false
refuse_if-eq-ok false why h = refl
refuse_if-eq-ok true why h = cc

-- The decimal digits of `n` in front of `acc`. A number has at most as many digits as its size.
decimal : ℕ → ℕ → Bytes → Bytes
decimal zero n acc = acc
decimal (suc fuel) n acc =
    let acc' = (b'0' + n % 10) ∷ acc in
    let more = decimal fuel (n / 10) acc' in if ltb n 10 then acc' else more

unfoldable pub to_string : ℕ → Bytes
unfolding decimal
to_string n = decimal (n + 1) n []
