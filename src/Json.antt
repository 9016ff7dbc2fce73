-- ===== src/Json.antt =====
-- JSON values as serde_json gives them, and its accessors. A float is its 64-bit pattern.
use bikesnest.Prelude.{
  ℕ, ◌^◌, String, Bool, true, false, Option, none, some, ltb, ◌=s=◌, if◌then◌else◌,
}
use bikesnest.Prelude.Int.{ℤ, pos, negsuc}

mutual
  pub data Json : Type 0 where
    null : Json
    boolean : Bool → Json
    int : ℤ → Json
    float : ℕ → Json
    string : String → Json
    array : Items → Json
    object : Fields → Json

  pub data Items : Type 0 where
    nil : Items
    cons : Json → Items → Items

  pub data Fields : Type 0 where
    end : Fields
    field : String → Json → Fields → Fields

abbrev pub lookup : String → Fields → Option Json
lookup key end = none
lookup key (field k v rest) = if k =s= key then some v else lookup key rest

-- `v.get(key)`
abbrev pub get : String → Json → Option Json
get key (object fields) = lookup key fields
get key _ = none

abbrev pub is_null : Json → Bool
is_null null = true
is_null _ = false

abbrev pub is_object : Json → Bool
is_object (object fields) = true
is_object _ = false

abbrev pub as_str : Json → Option String
as_str (string s) = some s
as_str _ = none

abbrev pub as_bool : Json → Option Bool
as_bool (boolean b) = some b
as_bool _ = none

-- `v.as_i64()`: an integer in the range of `i64`.
abbrev pub as_i64 : Json → Option ℤ
as_i64 (int (pos n)) = if ltb n (2 ^ 63) then some (pos n) else none
as_i64 (int (negsuc n)) = if ltb n (2 ^ 63) then some (negsuc n) else none
as_i64 _ = none

abbrev pub and_then {ℓ κ} : {A : Type ℓ} {B : Type κ} → Option A → (A → Option B) → Option B
and_then none f = none
and_then (some a) f = f a
