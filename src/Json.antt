-- ===== src/Json.antt =====
-- JSON values as the code uses those of serde_json: `Value`, its accessors, and the parser and the
-- printer of that package as a parameter. A number is one that `as_u64` takes, or another by its text.
-- An object is a sorted map there, so a key stands once.
use brigh_to_router.Prelude.{ℕ, Bool, true, false, Option, none, some, List, [], ◌∷◌, if◌then◌else◌}
use brigh_to_router.Prelude.Eq.{list_beq}
use brigh_to_router.Prelude.Result.{Result}
use brigh_to_router.Prelude.Text.{Text}

mutual
  pub data Value : Type 0 where
    null : Value
    boolean : Bool → Value
    num : ℕ → Value
    other_num : Text → Value
    str : Text → Value
    arr : Items → Value
    obj : Fields → Value

  pub data Items : Type 0 where
    nil : Items
    cons : Value → Items → Items

  pub data Fields : Type 0 where
    end : Fields
    field : Text → Value → Fields → Fields

abbrev pub Bytes : Type 0
Bytes = List ℕ

-- `from_str` and `from_slice`, whose errors are texts; `to_string`; `from_utf8_lossy`; `as_bytes`.
pub record Codec : Type 0 where
  pub parse : Text → Result Value Text
  pub parse_bytes : Bytes → Result Value Text
  pub encode : Value → Text
  pub lossy : Bytes → Text
  pub utf8 : Text → Bytes

unfoldable pub get_field : Fields → Text → Option Value
get_field end k = none
get_field (field j v fs) k = if list_beq j k then some v else get_field fs k

unfoldable pub get : Value → Text → Option Value
get (obj fs) k = get_field fs k
get _ k = none

unfoldable pub as_str : Value → Option Text
as_str (str s) = some s
as_str _ = none

unfoldable pub as_u64 : Value → Option ℕ
as_u64 (num n) = some n
as_u64 _ = none

unfoldable pub as_bool : Value → Option Bool
as_bool (boolean b) = some b
as_bool _ = none

unfoldable pub as_object : Value → Option Fields
as_object (obj fs) = some fs
as_object _ = none

unfoldable pub to_list : Items → List Value
to_list nil = []
to_list (cons v vs) = v ∷ to_list vs

unfoldable pub from_list : List Value → Items
from_list [] = nil
from_list (v ∷ vs) = cons v (from_list vs)

unfoldable pub as_array : Value → Option (List Value)
as_array (arr vs) = some (to_list vs)
as_array _ = none

unfoldable pub is_null : Value → Bool
is_null null = true
is_null _ = false

-- `Option::and_then`, `filter` of the empty text, `or_else`, `unwrap_or`.
abbrev pub and_then {ℓ κ} : {A : Type ℓ} {B : Type κ} → Option A → (A → Option B) → Option B
and_then none f = none
and_then (some a) f = f a

abbrev pub is_empty : Text → Bool
is_empty [] = true
is_empty (c ∷ s) = false

abbrev pub nonempty : Option Text → Option Text
nonempty none = none
nonempty (some []) = none
nonempty (some (c ∷ s)) = some (c ∷ s)

abbrev pub first {ℓ} : {A : Type ℓ} → List A → Option A
first [] = none
first (x ∷ xs) = some x

-- `.get(key).and_then(Value::as_str)`.
unfoldable pub get_str : Fields → Text → Option Text
get_str fs k = and_then (get_field fs k) as_str
