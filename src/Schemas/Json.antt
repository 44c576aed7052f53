-- ===== src/Schemas/Json.antt =====
-- JSON values, and the canonical text that the packages compute from them: `stableJson` of
-- broker.ts, service.ts and guardrail-service/src/idempotency.ts, and `stableStringify` of
-- idempotency-store.ts. The two differ in the order of the keys only. Strings hold Unicode scalar
-- values, so a lone surrogate has no counterpart.
use Prim.Native.Nat.{◌/◌, ◌%◌}
use Prim.Native.Char.{Char, code}
use Prim.Native.String.{slice}
use agent_trading_guardrails.Base.{
  ℕ, String, Bool, true, false, ◌||◌, ◌+◌, Option, none, some, ◌==◌, List, [], ◌∷◌, map, ltb,
  nat_eq, if◌then◌else◌,
}
use agent_trading_guardrails.Js.{JsNumber}
use agent_trading_guardrails.Js.Text.{template}

mutual
  pub data Json (N : Type 0) : Type 0 where
    null : Json N
    bool : Bool → Json N
    num : N → Json N
    str : String → Json N
    arr : JsonItems N → Json N
    obj : JsonFields N → Json N

  pub data JsonItems (N : Type 0) : Type 0 where
    no_items : JsonItems N
    item : Json N → JsonItems N → JsonItems N

  pub data JsonFields (N : Type 0) : Type 0 where
    no_fields : JsonFields N
    field : String → Json N → JsonFields N → JsonFields N

-- value[name], of an object that has each key once
abbrev pub property : {N : Type 0} → String → JsonFields N → Option (Json N)
property name no_fields = none
property name (field key value fields) =
    let rest = property name fields in if key == name then some value else rest

abbrev hex_digit : ℕ → String
hex_digit d = slice "0123456789abcdef" d (d + 1)

abbrev single : Char → String
single c = String.◌∷◌ c String.[]

-- What JSON.stringify writes for one character of a string.
unfoldable pub escape : Char → String
unfolding template
escape c =
    if nat_eq (code c) 34 || nat_eq (code c) 92
    then template ("\\" ∷ single c ∷ [])
    else if nat_eq (code c) 8
    then "\\b"
    else if nat_eq (code c) 9
    then "\\t"
    else if nat_eq (code c) 10
    then "\\n"
    else if nat_eq (code c) 12
    then "\\f"
    else if nat_eq (code c) 13
    then "\\r"
    else if ltb (code c) 32
    then template ("\\u00" ∷ hex_digit (code c / 16) ∷ hex_digit (code c % 16) ∷ [])
    else single c

unfoldable pub escape_all : String → String
unfolding escape template
escape_all String.[] = ""
escape_all (String.◌∷◌ c s) = template (escape c ∷ escape_all s ∷ [])

-- JSON.stringify of a string.
unfoldable pub quote : String → String
unfolding escape_all template
quote s = template ("\"" ∷ escape_all s ∷ "\"" ∷ [])

-- texts.join(",")
unfoldable pub join : List String → String
unfolding template
join [] = ""
join (t ∷ []) = t
join (t ∷ u ∷ ts) = template (t ∷ "," ∷ join (u ∷ ts) ∷ [])

-- An entry of an object, its value already written, and `.sort()` by the keys.
abbrev pub Member : Type 0
Member = String × String

module _ (key_le : String → String → Bool) where
  unfoldable pub insert_member : Member → List Member → List Member
  insert_member m [] = m ∷ []
  insert_member m (n ∷ ns) =
      let rest = insert_member m ns in if key_le m.0 n.0 then m ∷ n ∷ ns else n ∷ rest

  unfoldable pub sort_members : List Member → List Member
  unfolding insert_member
  sort_members [] = []
  sort_members (m ∷ ms) = insert_member m (sort_members ms)

unfoldable pub write_member : Member → String
unfolding quote template
write_member (key, text) = template (quote key ∷ ":" ∷ text ∷ [])

module _ {N : Type 0} ⦃number : JsNumber N⦄ (key_le : String → String → Bool) where
  unfoldable mutual
    unfolding quote join sort_members write_member template

    -- stableJson(value), stableStringify(value)
    pub stable_json : Json N → String
    stable_json null = "null"
    stable_json (bool true) = "true"
    stable_json (bool false) = "false"
    stable_json (num a) = number.show a
    stable_json (str s) = quote s
    stable_json (arr items) = template ("[" ∷ join (stable_items items) ∷ "]" ∷ [])
    stable_json (obj fields) =
        template
          ("{" ∷ join (map write_member (sort_members key_le (stable_fields fields))) ∷ "}" ∷ [])

    pub stable_items : JsonItems N → List String
    stable_items no_items = []
    stable_items (item j items) = stable_json j ∷ stable_items items

    pub stable_fields : JsonFields N → List Member
    stable_fields no_fields = []
    stable_fields (field key j fields) = (key, stable_json j) ∷ stable_fields fields
