-- ===== src/Json.antt =====
-- The JSON values that cross the service boundaries, as Python holds them: `None`, `bool`, `int`,
-- `float` (by the text that `repr` gives it, with whether it is finite), `str`, `list` and `dict`.
-- A `dict` keeps its insertion order. A read finds the first entry of a key, and an assignment
-- replaces it in place or appends.
use toollayer_ai.Base.{
  ℕ, String, ◌≡◌, refl, Bool, Option, none, some, List, [], ◌∷◌, arith, ◌==◌, eq_iff, if◌then◌else◌,
}

-- `negsuc n` is -(n + 1).
pub data ℤ : Type 0 where
  pos : ℕ → ℤ
  negsuc : ℕ → ℤ

mutual
  pub data Json : Type 0 where
    null : Json
    bool : Bool → Json
    int : ℤ → Json
    float : Bool → String → Json
    str : String → Json
    arr : Items → Json
    obj : Fields → Json

  pub data Items : Type 0 where
    nil : Items
    cons : Json → Items → Items

  pub data Fields : Type 0 where
    end : Fields
    field : String → Json → Fields → Fields

unfoldable pub items : Items → List Json
items nil = []
items (cons x xs) = x ∷ items xs

unfoldable pub to_items : List Json → Items
to_items [] = nil
to_items (x ∷ xs) = cons x (to_items xs)

pub items-to_items : (xs : List Json) → items (to_items xs) ≡ xs
unfolding items to_items
items-to_items [] = refl
items-to_items (x ∷ xs) = λ i. x ∷ items-to_items xs i

-- `d.get(key)`, told apart from a stored `None`
unfoldable pub find : String → Fields → Option Json
find key end = none
find key (field k v fs) = if k == key then some v else find key fs

abbrev or_null : Option Json → Json
or_null none = null
or_null (some v) = v

-- `d.get(key)`
unfoldable pub get : String → Fields → Json
unfolding find
get key fs = or_null (find key fs)

-- `d[key] = value`
unfoldable pub put : String → Json → Fields → Fields
put key v end = field key v end
put key v (field k w fs) = if k == key then field k v fs else field k w (put key v fs)

pub find-put :
    (key j : String) (v : Json) (fs : Fields)
    → find j (put key v fs) ≡ (if key == j then some v else find j fs)
unfolding find put
find-put key j v end = refl
find-put key j v (field k w fs) =
    ground (arith, eq_iff key j, eq_iff k key, eq_iff k j, find-put key j v fs)

-- `{k: v for k, v in d.items() if k != key}`
unfoldable pub without : String → Fields → Fields
without key end = end
without key (field k v fs) = if k == key then without key fs else field k v (without key fs)

pub find-without :
    (key j : String) (fs : Fields)
    → find j (without key fs) ≡ (if key == j then none else find j fs)
unfolding find without
find-without key j end = ground arith
find-without key j (field k v fs) =
    ground (arith, eq_iff key j, eq_iff k key, eq_iff k j, find-without key j fs)
