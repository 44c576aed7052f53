-- ===== src/Base/Dict.antt =====
-- JavaScript's `Map` with string keys, as an association list: `get`, `set` and `delete`.
use agent_trading_guardrails.Base.Tests.{if◌then◌else◌}
use Prim.Native.String.{String}
use mathlib.Core.Path.{◌≡◌, refl}
use mathlib.Core.Option.{Option, none, some}
use mathlib.Core.List.{List, [], ◌∷◌}
use native.Mathlib.Omega.{arith}
use text.Mathlib.Text.{◌==◌}
use text.Mathlib.TextEquality.{eq_iff}

abbrev pub Dict : Type 0 → Type 0
Dict V = List (String × V)

module _ {V : Type 0} where
  -- map.get(key)
  unfoldable pub get : String → Dict V → Option V
  get key [] = none
  get key ((k, v) ∷ rest) = if k == key then some v else get key rest

  -- map.set(key, value), which keeps the place of a key that is there
  unfoldable pub put : String → V → Dict V → Dict V
  put key v [] = (key, v) ∷ []
  put key v ((k, w) ∷ rest) = if k == key then (k, v) ∷ rest else (k, w) ∷ put key v rest

  -- map.delete(key)
  unfoldable pub remove : String → Dict V → Dict V
  remove key [] = []
  remove key ((k, w) ∷ rest) =
      let others = remove key rest in if k == key then others else (k, w) ∷ others

  pub get-put :
      (key other : String) (v : V) (m : Dict V)
      → get other (put key v m) ≡ (if key == other then some v else get other m)
  unfolding get put
  get-put key other v [] = refl
  get-put key other v ((k, w) ∷ rest) =
      ground (arith, eq_iff k key, eq_iff k other, eq_iff key other, get-put key other v rest)

  pub get-remove :
      (key other : String) (m : Dict V)
      → get other (remove key m) ≡ (if key == other then none else get other m)
  unfolding get remove
  get-remove key other [] = ground arith
  get-remove key other ((k, w) ∷ rest) =
      ground (arith, eq_iff k key, eq_iff k other, eq_iff key other, get-remove key other rest)

-- A new map has no entries.
pub get-empty : {V : Type 0} (key : String) → get {V = V} key [] ≡ none
unfolding get
get-empty key = refl
