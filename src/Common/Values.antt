-- ===== src/Common/Values.antt =====
-- The values of Python's `json`: what a payload, a content or an execution record holds.
use Prim.Native.Nat.{ℕ}
use Prim.Native.String.{String}
use mathlib.Core.Bool.{Bool, true, false}
use mathlib.Core.Option.{Option, none, some}
use mathlib.Core.Path.{◌≡◌, ap}
use multi_agent_aidlc.Common.Tests.{◌==◌, eq_of_beq, string_eq, nat_eq, if◌then◌else◌}

mutual
  pub data Json : Type 0 where
    null : Json
    bool : Bool → Json
    num : ℕ → Json
    str : String → Json
    arr : Items → Json
    obj : Fields → Json

  pub data Items : Type 0 where
    nil : Items
    cons : Json → Items → Items

  pub data Fields : Type 0 where
    end : Fields
    field : String → Json → Fields → Fields

abbrev pub get_field : Fields → String → Option Json
get_field end key = none
get_field (field k v rest) key = if k == key then some v else get_field rest key

-- `d.get(key)`: `None` when the key is missing or `d` is no object.
abbrev pub get : Json → String → Option Json
get (obj fs) key = get_field fs key
get _ key = none

-- `bool(d.get(key))`
abbrev pub truthy : Option Json → Bool
truthy none = false
truthy (some null) = false
truthy (some (bool b)) = b
truthy (some (num n)) = if n == 0 then false else true
truthy (some (str s)) = if s == "" then false else true
truthy (some (arr nil)) = false
truthy (some (arr (cons _ _))) = true
truthy (some (obj end)) = false
truthy (some (obj (field _ _ _))) = true

-- `d.get(key) == s` for a text `s`
abbrev pub is_str : Option Json → String → Bool
is_str (some (str t)) s = t == s
is_str _ s = false

-- `d.get(key) or 0` for a number
abbrev pub num_or_zero : Option Json → ℕ
num_or_zero (some (num n)) = n
num_or_zero _ = 0

-- `d[key] = value`
abbrev pub set_field : String → Json → Fields → Fields
set_field key value end = field key value end
set_field key value (field k v rest) =
    if k == key then field key value rest else field k v (set_field key value rest)

pub is_str-eq : (value : Option Json) (s : String) → is_str value s ≡ true → value ≡ some (str s)
is_str-eq none s h = cc h
is_str-eq (some (str t)) s h = ap (λ u. some (str u)) (eq_of_beq t s h)
is_str-eq (some _) s h = cc h
