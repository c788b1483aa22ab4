-- ===== src/Base/Float.antt =====
-- `f32`: the type and the operations that the program uses, as a parameter. No law of them is assumed.
use corivo_desktop.Base.{ℕ, Bool, ltb, leb, true}
use Prim.Native.Nat.{◌+◌, ◌-◌, ◌*◌, ◌/◌, min}

pub record F32 : Type 1 where
  pub Carrier : Type 0
  pub zero : Carrier
  pub one : Carrier
  pub lt : Carrier → Carrier → Bool
  pub le : Carrier → Carrier → Bool
  pub min : Carrier → Carrier → Carrier
  pub is_finite : Carrier → Bool
  pub add : Carrier → Carrier → Carrier
  pub sub : Carrier → Carrier → Carrier
  pub div : Carrier → Carrier → Carrier
  pub exp : Carrier → Carrier

-- Natural numbers as a stand-in, for tests: `exp` is constantly 1 and `div` multiplies.
abbrev pub counting : F32
counting = record {
  Carrier = ℕ;
  zero = 0;
  one = 1;
  lt = ltb;
  le = leb;
  min = min;
  is_finite = λ _. true;
  add = ◌+◌;
  sub = ◌-◌;
  div = λ a b. a * 100 / b;
  exp = λ _. 1;
}
