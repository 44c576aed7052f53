-- ===== src/Audit/Proofs/Sealed.antt =====
-- The rows that `recoverLastHash` accepts, described without the loop: each is sealed with the hash of
-- the one before it.
use agent_trading_guardrails.Base.{
  String, ◌==◌, eq_iff, eq_refl, ◌≡◌, refl, sym, ap, ◌∙◌, ◌↔◌, inl, inr, false, Bool-cases, Option,
  none, some, List, [], ◌∷◌, ◌++◌, arith,
}
use mathlib.Core.Path.{subst}
use mathlib.Core.List.{append-nil, append_assoc}
use mathlib.Core.Path.{subst}
use mathlib.Core.List.{append-nil, append_assoc}
use agent_trading_guardrails.Js.Text.{is_empty, template}
use agent_trading_guardrails.Audit.Types.{Content, Row}
use agent_trading_guardrails.Audit.Chain.{
  zero_hash, content_text, compute_event_hash, recover_from, recover_last_hash, recovered,
  check_stored, Recovered,
}
use agent_trading_guardrails.Audit.Writer.{sealed_row}

pub data Sealed (hmac : String → String) : List Row → String → Type 0 where
  no_rows : Sealed hmac [] zero_hash
  next_row :
      {rows : List Row} {hash : String}
      → Sealed hmac rows hash
      → (c : Content)
      → Sealed hmac (rows ++ sealed_row hmac hash c ∷ []) (compute_event_hash hmac hash c)

module _ (hmac : String → String) where
  -- What the tests of one row establish.
  check_stored_lem :
      (stored : Option String) (hash : String) (rest : Recovered) {end : String}
      → check_stored hmac stored hash rest ≡ recovered end
      → (stored ≡ some hash) × (rest ≡ recovered end)
  check_stored_lem none hash rest h = absurd (ground arith)
  check_stored_lem (some s) hash rest h =
      (ground (arith, eq_iff s hash), ground (arith, eq_iff s hash))

  recovered_injective : {a b : String} → recovered a ≡ recovered b → a ≡ b
  recovered_injective h = ground arith

  first_row :
      (p : String) (row : Row) (rows : List Row) {end : String}
      → recover_from hmac p (row ∷ rows) ≡ recovered end
      → (row ≡ sealed_row hmac p row.content)
        × (recover_from hmac (compute_event_hash hmac p row.content) rows ≡ recovered end)
  unfolding recover_from
  first_row p row rows {end} h = elim (Bool-cases (row.previous_hash == p)) [
    | inr q ↦ absurd (ground (arith, q))
    | inl q ↦
        let same : row.previous_hash ≡ p = (eq_iff row.previous_hash p).0 q in
        let stored =
          check_stored_lem row.event_hash (compute_event_hash hmac row.previous_hash row.content)
            (recover_from hmac (compute_event_hash hmac row.previous_hash row.content) rows)
            {end = end} (ground (arith, q)) in
        (
          λ i. record {
            content = row.content;
            previous_hash = same i;
            event_hash = (stored.0 ∙ ap (λ t. some (compute_event_hash hmac t row.content)) same) i;
          },
          subst
              (λ t. recover_from hmac (compute_event_hash hmac t row.content) rows ≡ recovered end)
              same stored.1,
        )
  ]

  recover_from-Sealed :
      {front : List Row} (p : String) (rows : List Row) {end : String}
      → Sealed hmac front p
      → recover_from hmac p rows ≡ recovered end
      → Sealed hmac (front ++ rows) end
  unfolding recover_from
  recover_from-Sealed {front} p [] {end} s h =
      subst (λ t. Sealed hmac t end) (sym (append-nil front))
        (subst (Sealed hmac front) (recovered_injective h) s)
  recover_from-Sealed {front} p (row ∷ rows) {end} s h =
      let first = first_row p row rows {end = end} h in
      subst (λ t. Sealed hmac t end) (append_assoc front (row ∷ []) rows)
        (recover_from-Sealed (compute_event_hash hmac p row.content) rows {end = end}
          (subst (λ r. Sealed hmac (front ++ r ∷ []) (compute_event_hash hmac p row.content))
            (sym first.0) (next_row s row.content))
          first.1)

  -- `recoverLastHash` accepts only rows that are sealed.
  pub recover-Sealed :
      (rows : List Row) {end : String}
      → recover_last_hash hmac rows ≡ recovered end
      → Sealed hmac rows end
  unfolding recover_last_hash
  recover-Sealed rows {end} h = recover_from-Sealed zero_hash rows {end = end} no_rows h

-- A digest is a text of 64 digits; that it is not empty is what the writer relies on.
module _ (hmac : String → String) (filled : (text : String) → is_empty (hmac text) ≡ false) where
  pub recover_from-sealed_row :
      (p : String) (c : Content) (rows : List Row)
      → recover_from hmac p (sealed_row hmac p c ∷ rows)
        ≡ recover_from hmac (compute_event_hash hmac p c) rows
  unfolding recover_from compute_event_hash
  recover_from-sealed_row p c rows = ground (
    arith,
    eq_refl p,
    eq_refl (compute_event_hash hmac p c),
    filled (template (p ∷ content_text c ∷ [])),
  )

  -- One more row, sealed with the hash that the others end in.
  pub recover_from-append :
      (p : String) (rows : List Row) (c : Content) {end : String}
      → recover_from hmac p rows ≡ recovered end
      → recover_from hmac p (rows ++ sealed_row hmac end c ∷ [])
        ≡ recovered (compute_event_hash hmac end c)
  unfolding recover_from
  recover_from-append p [] c {end} h =
      subst
        (λ t.
          recover_from hmac t (sealed_row hmac end c ∷ [])
          ≡ recovered (compute_event_hash hmac end c))
        (sym (recovered_injective hmac h)) (recover_from-sealed_row end c [])
  recover_from-append p (row ∷ rows) c {end} h =
      let first = first_row hmac p row rows {end = end} h in
      ap (λ r. recover_from hmac p (r ∷ rows ++ sealed_row hmac end c ∷ [])) first.0
      ∙ recover_from-sealed_row p row.content (rows ++ sealed_row hmac end c ∷ [])
      ∙ recover_from-append (compute_event_hash hmac p row.content) rows c {end = end} first.1

  Sealed-recover :
      {rows : List Row} {end : String}
      → Sealed hmac rows end
      → recover_last_hash hmac rows ≡ recovered end
  unfolding recover_last_hash recover_from
  Sealed-recover no_rows = refl
  Sealed-recover (next_row {rows} {hash} s c) =
      recover_from-append zero_hash rows c {end = hash} (Sealed-recover s)

  -- When digests are not empty, `recoverLastHash` returns a hash exactly for the rows each of which is
  -- sealed with the hash of the one before it, beginning with the zero hash, and it is the last one's.
  pub recover_iff :
      (rows : List Row) (end : String)
      → (recover_last_hash hmac rows ≡ recovered end) ↔ Sealed hmac rows end
  recover_iff rows end = (recover-Sealed hmac rows {end = end}, Sealed-recover)
