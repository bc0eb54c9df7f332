-- ===== src/Plan/Json.antt =====
-- The values that `json.loads` returns, and the numbers of the host language.
use ezsql.Base.{ℕ, String, Bool, Option, none, some, ◌==◌, string_eq, if◌then◌else◌}
use ezsql.Base.Int.{ℤ}

-- What the code uses of Python's numbers. `float(v)` and `int(v)` raise on some values (an integer
-- too large for a double, an infinity), which is `none`. `exceeds_tenth d o` is the host's test
-- `d / o > 0.10` of two positive or zero integers, which divides them as doubles.
pub record Numbers : Type 1 where
  pub Num : Type 0
  pub Float : Type 0
  pub num_of_bool : Bool → Num
  pub to_float : Num → Option Float
  pub to_int : Num → Option ℤ
  pub sub : Float → Float → Float
  pub div : Float → Float → Float
  pub mul : Float → Float → Float
  pub hundred : Float
  pub is_pos : Float → Bool
  pub exceeds_tenth : ℕ → ℕ → Bool

-- A decoded object has each key once.
mutual
  pub data Json (N : Type 0) : Type 0 where
    null : Json N
    bool : Bool → Json N
    number : N → Json N
    str : String → Json N
    arr : Items N → Json N
    obj : Fields N → Json N

  pub data Items (N : Type 0) : Type 0 where
    nil : Items N
    cons : Json N → Items N → Items N

  pub data Fields (N : Type 0) : Type 0 where
    end : Fields N
    field : String → Json N → Fields N → Fields N

-- `raw.get(key)`
unfoldable pub get : {N : Type 0} → String → Fields N → Option (Json N)
get key end = none
get key (field k v rest) = if k == key then some v else get key rest

-- `v if isinstance(v, str) else None`
abbrev pub as_text : {N : Type 0} → Option (Json N) → Option String
as_text (some (str s)) = some s
as_text _ = none

module _ (numbers : Numbers) where
  open numbers use {Num, num_of_bool}

  -- The values that `isinstance(v, (int, float))` accepts: a `bool` is an `int`.
  abbrev pub as_number : Option (Json Num) → Option Num
  as_number (some (number n)) = some n
  as_number (some (bool b)) = some (num_of_bool b)
  as_number _ = none
