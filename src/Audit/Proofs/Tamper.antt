-- ===== src/Audit/Proofs/Tamper.antt =====
-- A chain of hashes determines the contents of its rows, unless the digest collides on the texts of the
-- two tables that are compared.
use Prim.Native.String.{◌++◌, count}
use mathlib.Core.Path.{subst}
use mathlib.Core.List.{map-append, Mem, mem-cons_self, mem-append_left, mem-append_right}
use text.Mathlib.TextLemmas.{append_inj, append_cancel_right}
use agent_trading_guardrails.Base.{
  String, ◌==◌, eq_iff, ◌≡◌, ◌≢◌, refl, sym, ◌∙◌, inl, inr, ◌⊎◌, Bool-cases, List, [], ◌∷◌, map,
  ◌++◌ as ◌⧺◌, arith,
}
use agent_trading_guardrails.Js.Text.{template}
use agent_trading_guardrails.Audit.Types.{Row}
use agent_trading_guardrails.Audit.Chain.{
  zero_hash, content_text, compute_event_hash, recover_last_hash, recovered,
}
use agent_trading_guardrails.Audit.Proofs.Sealed.{Sealed, no_rows, next_row, recover-Sealed}
use agent_trading_guardrails.Audit.Writer.{sealed_row}

-- The text that was hashed for a row: the hash of the row before, and the content.
abbrev input : Row → String
input row = row.previous_hash ++ (content_text row.content ++ "")

abbrev pub inputs : List Row → List String
inputs = map input

-- A text that was hashed for one table and another that was hashed for the other have the same digest, or
-- the digest of a text of one of them is the hash that a chain begins with.
pub data Collision (hmac : String → String) (rows others : List Row) : Type 0 where
  collides :
      (a b : String)
      → Mem a (inputs rows)
      → Mem b (inputs others)
      → a ≢ b
      → hmac a ≡ hmac b
      → Collision hmac rows others
  begins :
      (a : String)
      → Mem a (inputs rows) ⊎ Mem a (inputs others)
      → hmac a ≡ zero_hash
      → Collision hmac rows others

last_input : (rows : List Row) (row : Row) → Mem (input row) (inputs (rows ⧺ row ∷ []))
last_input rows row =
    subst (Mem (input row)) (sym (map-append input rows (row ∷ [])))
      (mem-append_right (inputs rows) mem-cons_self)

earlier_input :
    (rows : List Row) (row : Row) {a : String}
    → Mem a (inputs rows)
    → Mem a (inputs (rows ⧺ row ∷ []))
earlier_input rows row {a} m =
    subst (Mem a) (sym (map-append input rows (row ∷ []))) (mem-append_left (input row ∷ []) m)

-- A collision of two tables is one of two longer tables.
grown :
    {hmac : String → String} {rows others : List Row} (row other : Row)
    → Collision hmac rows others
    → Collision hmac (rows ⧺ row ∷ []) (others ⧺ other ∷ [])
grown {rows} {others} row other (collides a b m n ne same) =
    collides a b (earlier_input rows row m) (earlier_input others other n) ne same
grown {rows} {others} row other (begins a (inl m) zero) =
    begins a (inl (earlier_input rows row m)) zero
grown {rows} {others} row other (begins a (inr m) zero) =
    begins a (inr (earlier_input others other m)) zero

-- The hashed texts of rows.
abbrev pub texts : List Row → List String
texts = map (λ row. content_text row.content)

module _ (hmac : String → String) (digits : (text : String) → count (hmac text) ≡ 64) where
  Sealed-count : {rows : List Row} {hash : String} → Sealed hmac rows hash → count hash ≡ 64
  unfolding compute_event_hash
  Sealed-count no_rows = refl
  Sealed-count (next_row s c) = digits _

  Sealed-determined :
      {rows others : List Row} {hash other : String}
      → Sealed hmac rows hash
      → Sealed hmac others other
      → hash ≡ other
      → (texts rows ≡ texts others) ⊎ Collision hmac rows others
  unfolding compute_event_hash template
  Sealed-determined no_rows no_rows p = inl refl
  Sealed-determined no_rows (next_row {rows} {hash} s c) p =
      inr (begins _ (inr (last_input rows (sealed_row hmac hash c))) (sym p))
  Sealed-determined (next_row {rows} {hash} s c) no_rows p =
      inr (begins _ (inl (last_input rows (sealed_row hmac hash c))) p)
  Sealed-determined (next_row {rows} {hash} s c) (next_row {rows = others} {hash = other} t d) p =
      elim (Bool-cases (hash ++ (content_text c ++ "") == other ++ (content_text d ++ ""))) [
        | inr differ ↦ inr (
            collides (hash ++ (content_text c ++ "")) (other ++ (content_text d ++ ""))
              (last_input rows (sealed_row hmac hash c))
              (last_input others (sealed_row hmac other d))
              (λ e. ground (
                arith,
                differ,
                (eq_iff (hash ++ (content_text c ++ "")) (other ++ (content_text d ++ ""))).1 e,
              ))
              p)
        | inl same ↦
            let parts =
              append_inj {s₁ = hash} {s₂ = other}
                ((eq_iff (hash ++ (content_text c ++ "")) (other ++ (content_text d ++ ""))).0 same)
                (Sealed-count s ∙ sym (Sealed-count t)) in
            elim (Sealed-determined s t parts.0) [
              | inr found ↦ inr (grown (sealed_row hmac hash c) (sealed_row hmac other d) found)
              | inl texts_agree ↦ inl (
                  map-append (λ row. content_text row.content) rows (sealed_row hmac hash c ∷ [])
                  ∙ (λ i.
                      texts_agree i
                      ⧺ (append_cancel_right (content_text c) (content_text d) "" parts.1 i ∷ []))
                  ∙ sym (
                      map-append (λ row. content_text row.content) others
                        (sealed_row hmac other d ∷ [])))
            ]
      ]

  -- Two tables of rows from which `recoverLastHash` recovers the same hash have the same hashed contents,
  -- row by row; or the digest collides on what was hashed for them: a text that was hashed for a row of
  -- one and another one for a row of the other have the same digest, or one such text has the digest that
  -- a chain begins with. Digests have 64 digits.
  pub recovered-texts :
      (rows others : List Row) (hash : String)
      → recover_last_hash hmac rows ≡ recovered hash
      → recover_last_hash hmac others ≡ recovered hash
      → (texts rows ≡ texts others) ⊎ Collision hmac rows others
  recovered-texts rows others hash p q =
      Sealed-determined (recover-Sealed hmac rows {end = hash} p)
        (recover-Sealed hmac others {end = hash} q) refl
