-- ===== src/Js/Text.antt =====
-- Template literals, and `String.prototype.trim` with the test of the source that begins with it.
use Prim.Native.Char.{code}
use Prim.Native.String.{String}
use Prim.Native.String.{◌++◌}
use agent_trading_guardrails.Base.{
  ℕ, Bool, true, false, ◌+◌, ◌||◌, ◌&&◌, List, [], ◌∷◌, ◌++◌ as ◌⧺◌, leb, nat_eq, if◌then◌else◌,
}

-- A template literal, from its pieces.
unfoldable pub template : List String → String
template [] = ""
template (piece ∷ pieces) = piece ++ template pieces

-- The code points of a text.
abbrev pub codes : String → List ℕ
codes String.[] = List.[]
codes (String.◌∷◌ c s) = code c ∷ codes s

-- WhiteSpace and LineTerminator of ECMAScript.
unfoldable pub is_space : ℕ → Bool
is_space c =
    (leb 9 c && leb c 13)
    || nat_eq c 32
    || nat_eq c 160
    || nat_eq c 0x1680
    || (leb 0x2000 c && leb c 0x200a)
    || nat_eq c 0x2028
    || nat_eq c 0x2029
    || nat_eq c 0x202f
    || nat_eq c 0x205f
    || nat_eq c 0x3000
    || nat_eq c 0xfeff

-- s.trimStart() and s.trimEnd()
unfoldable pub trim_start : String → String
trim_start String.[] = ""
trim_start (String.◌∷◌ c s) =
    let rest = trim_start s in if is_space (code c) then rest else String.◌∷◌ c s

abbrev pub is_empty : String → Bool
is_empty String.[] = true
is_empty (String.◌∷◌ c s) = false

unfoldable pub trim_end : String → String
trim_end String.[] = ""
trim_end (String.◌∷◌ c s) =
    let rest = trim_end s in if is_space (code c) && is_empty rest then "" else String.◌∷◌ c rest

-- s.trim()
unfoldable pub trim : String → String
unfolding trim_start trim_end is_space
trim s = trim_end (trim_start s)

-- s.trim().length === 0
unfoldable pub is_blank : String → Bool
unfolding trim
is_blank s = is_empty (trim s)

abbrev lower_code : ℕ → List ℕ
lower_code c =
    if leb b'A' c && leb c b'Z'
    then (c + 32) ∷ []
    else if nat_eq c 0x130
    then b'i' ∷ 0x307 ∷ []
    else if nat_eq c 0x212a
    then b'k' ∷ []
    else c ∷ []

-- s.toLowerCase(), on code points, as far as the tests of the source can tell: they look for ASCII
-- texts and count characters, and the lower case of no character but A-Z, U+0130 and U+212A holds
-- ASCII characters or is of another length.
unfoldable pub lower_codes : List ℕ → List ℕ
lower_codes [] = []
lower_codes (c ∷ cs) = lower_code c ⧺ lower_codes cs

-- The searches of strings, on code points.
unfoldable pub starts_with : List ℕ → List ℕ → Bool
starts_with [] ys = true
starts_with (x ∷ xs) [] = false
starts_with (x ∷ xs) (y ∷ ys) = nat_eq x y && starts_with xs ys

-- text.includes(part)
unfoldable pub includes : List ℕ → List ℕ → Bool
unfolding starts_with
includes part [] = starts_with part []
includes part (y ∷ ys) = starts_with part (y ∷ ys) || includes part ys

unfoldable pub equals : List ℕ → List ℕ → Bool
equals [] [] = true
equals (x ∷ xs) (y ∷ ys) = nat_eq x y && equals xs ys
equals _ _ = false

-- text.endsWith(suffix)
unfoldable pub ends_with : List ℕ → List ℕ → Bool
unfolding equals
ends_with suffix [] = equals suffix []
ends_with suffix (y ∷ ys) = equals suffix (y ∷ ys) || ends_with suffix ys
