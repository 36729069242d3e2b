-- ===== src/Json.antt =====
-- JSON objects as Python dicts: keys in insertion order, values that the program looks into.
-- json.dumps and json.loads are inverse on these, so a column of JSON text is its object.
use package.text.Mathlib.Text.{◌==◌}
use package.text.Mathlib.TextEquality.{eq_iff}
use risk_opportunity_manager.Prelude.{
  ℤ, pos, ◌≡◌, refl, Bool, false, not, Option, none, some, List, [], ◌∷◌, if◌then◌else◌, String,
  arith, eqb_ℤ,
}

pub data Value : Type 0 where
  null : Value
  bool : Bool → Value
  int : ℤ → Value
  text : String → Value

abbrev pub Fields : Type 0
Fields = List (String × Value)

-- d.get(k); `none` is a missing key
unfoldable pub get : String → Fields → Option Value
get k [] = none
get k ((j, v) ∷ d) = if j == k then some v else get k d

-- d[k] = v
unfoldable pub put : String → Value → Fields → Fields
put k v [] = (k, v) ∷ []
put k v ((j, w) ∷ d) = if j == k then (j, v) ∷ d else (j, w) ∷ put k v d

-- bool(v)
unfoldable pub truthy : Value → Bool
truthy null = false
truthy (bool b) = b
truthy (int n) = not (eqb_ℤ n (pos 0))
truthy (text s) = not (s == "")

pub get-put :
    (k j : String) (v : Value) (d : Fields)
    → get j (put k v d) ≡ (if k == j then some v else get j d)
unfolding get put
get-put k j v [] = refl
get-put k j v ((i, w) ∷ d) = ground (arith, eq_iff k j, eq_iff i k, eq_iff i j, get-put k j v d)
