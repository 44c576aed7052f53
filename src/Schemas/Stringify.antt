-- ===== src/Schemas/Stringify.antt =====
-- `JSON.stringify` of a JSON value, which keeps the order of the keys. Nothing that is `undefined`
-- occurs in a value; a number that is not finite is written as null.
use agent_trading_guardrails.Base.{String, List, [], ◌∷◌, map, true, false, if◌then◌else◌}
use agent_trading_guardrails.Js.{JsNumber}
use agent_trading_guardrails.Js.Text.{template}
use agent_trading_guardrails.Schemas.Json.{
  Json, null, bool, num, str, arr, obj, JsonItems, no_items, item, JsonFields, no_fields, field,
  quote, join, Member, write_member,
}

module _ {N : Type 0} ⦃number : JsNumber N⦄ where
  unfoldable mutual
    unfolding quote join write_member template

    pub stringify : Json N → String
    stringify null = "null"
    stringify (bool true) = "true"
    stringify (bool false) = "false"
    stringify (num a) = if number.is_finite a then number.show a else "null"
    stringify (str s) = quote s
    stringify (arr items) = template ("[" ∷ join (item_texts items) ∷ "]" ∷ [])
    stringify (obj fields) =
        template ("{" ∷ join (map write_member (field_texts fields)) ∷ "}" ∷ [])

    pub item_texts : JsonItems N → List String
    item_texts no_items = []
    item_texts (item j items) = stringify j ∷ item_texts items

    pub field_texts : JsonFields N → List Member
    field_texts no_fields = []
    field_texts (field key j fields) = (key, stringify j) ∷ field_texts fields
