-- ===== src/Audit/Proofs/Restart.antt =====
-- The writer that is constructed over what a call of `write` has left, and the rows that
-- `backfillLegacyEventHashes` seals.
use agent_trading_guardrails.Base.{
  String, ◌==◌, ◌≡◌, refl, ap, ◌∙◌, inl, inr, Bool, true, false, Bool-cases, Option, none, some,
  List, [], ◌∷◌, every, every-append, arith,
}
use agent_trading_guardrails.Js.Text.{is_empty}
use agent_trading_guardrails.Audit.Types.{
  Content, Row, AuditConfig, AuditWriter, Database, FileWrite, returns, is_path,
}
use agent_trading_guardrails.Audit.Chain.{
  zero_hash, compute_event_hash, recover_from, recover_last_hash, recovered,
}
use agent_trading_guardrails.Audit.Writer.{
  sealed_row, write_content, anchor_outcome, verify_anchored_hash, compare_anchor,
}
use agent_trading_guardrails.Audit.Startup.{
  is_sealed, is_legacy, loaded, constructed, started, seal_rows, backfill_legacy_event_hashes,
  construct, verified, with_hash, with_rows, with_secret, assert_audit_hash_secret,
  assert_audit_hash_anchor,
}
use agent_trading_guardrails.Audit.Proofs.Sealed.{
  Sealed, no_rows, next_row, recover-Sealed, recover_from-sealed_row,
}
use agent_trading_guardrails.Audit.Proofs.Returns.{Established, write_content-Established}

module _ (hmac : String → String) where
  Sealed-every :
      {rows : List Row} {hash : String} → Sealed hmac rows hash → every is_sealed rows ≡ true
  Sealed-every no_rows = refl
  Sealed-every (next_row {rows} {hash} s c) =
      every-append is_sealed rows (sealed_row hmac hash c ∷ []) ∙ ground (arith, Sealed-every s)

module _ (hmac : String → String) (filled : (text : String) → is_empty (hmac text) ≡ false) where
  seal_rows-recovered :
      (p : String) (rows : List Row)
      → (end : String) × (recover_from hmac p (seal_rows hmac p rows) ≡ recovered end)
  unfolding seal_rows recover_from
  seal_rows-recovered p [] = (p, refl)
  seal_rows-recovered p (row ∷ rows) =
      let rest = seal_rows-recovered (compute_event_hash hmac p row.content) rows in
      (
        rest.0,
        recover_from-sealed_row hmac filled p row.content
              (seal_rows hmac (compute_event_hash hmac p row.content) rows)
            ∙ rest.1,
      )

  -- A table of legacy rows is accepted once they are sealed; digests are taken not to be empty.
  pub backfill-recovered :
      (row : Row) (rows : List Row)
      → every is_legacy (row ∷ rows) ≡ true
      → (after : List Row) × (end : String) × (backfill_legacy_event_hashes hmac (row ∷ rows)
          ≡ loaded after)
        × (recover_last_hash hmac after ≡ recovered end)
  unfolding backfill_legacy_event_hashes recover_last_hash
  backfill-recovered row rows legacy =
      let sealed = seal_rows-recovered zero_hash (row ∷ rows) in
      (seal_rows hmac zero_hash (row ∷ rows), sealed.0, ground (arith, legacy), sealed.1)

module _ (hmac : String → String) (conf : AuditConfig) where
  compare_anchor_lem :
      (repair : Bool) (file : FileWrite) (w : AuditWriter) (anchor : Option String)
      → (compare_anchor conf false FileWrite.written w anchor).0 ≡ returns
      → compare_anchor conf repair file w anchor ≡ (returns, w)
  compare_anchor_lem repair file w none h = elim (Bool-cases (w.last_hash == zero_hash)) [
    | inl q ↦ ground (arith, q)
    | inr q ↦ absurd (ground (arith, q))
  ]
  compare_anchor_lem repair file w (some anchored_hash) h =
      elim (Bool-cases (anchored_hash == w.last_hash)) [
        | inl q ↦ ground (arith, q)
        | inr q ↦ absurd (ground (arith, q))
      ]

  -- Where nothing is to be repaired, the repair changes nothing.
  verify_anchored_hash_lem :
      (repair : Bool) (file : FileWrite) (w : AuditWriter)
      → anchor_outcome conf w ≡ returns
      → verify_anchored_hash conf repair file w ≡ (returns, w)
  unfolding anchor_outcome verify_anchored_hash
  verify_anchored_hash_lem repair file w h = elim (Bool-cases (is_path conf.hash_anchor_path)) [
    | inr q ↦ ground (arith, q)
    | inl q ↦ ground (arith, q, compare_anchor_lem repair file w w.anchor (ground (arith, q)))
  ]

  backfill-sealed :
      (rows : List Row)
      → every is_sealed rows ≡ true
      → backfill_legacy_event_hashes hmac rows ≡ loaded rows
  unfolding backfill_legacy_event_hashes
  backfill-sealed rows h = ground (arith, h)

  compare_anchor-started :
      (w : AuditWriter) (anchor : Option String)
      → (compare_anchor conf false FileWrite.written (started w.anchor w.rows w.last_hash) anchor).0
        ≡ (compare_anchor conf false FileWrite.written w anchor).0
  compare_anchor-started w none = ground arith
  compare_anchor-started w (some hash) = ground arith

  anchor_outcome-started :
      (w : AuditWriter)
      → anchor_outcome conf (started w.anchor w.rows w.last_hash) ≡ anchor_outcome conf w
  unfolding anchor_outcome verify_anchored_hash
  anchor_outcome-started w = ground (arith, compare_anchor-started w w.anchor)

  construct-Established :
      (file : FileWrite) (c : Content) (w : AuditWriter)
      → assert_audit_hash_secret conf.environment conf.hash_secret ≡ returns
      → assert_audit_hash_anchor conf.environment conf.hash_anchor_path ≡ returns
      → Established hmac conf c w
      → construct hmac conf file w.anchor w.rows ≡ constructed (started w.anchor w.rows w.last_hash)
  unfolding construct
  construct-Established file c w secret path e =
      let sealed = Sealed-every hmac (recover-Sealed hmac w.rows {end = w.last_hash} e.chain) in
      ap
        (λ o.
          with_secret hmac conf file w.anchor w.rows o
            (assert_audit_hash_anchor conf.environment conf.hash_anchor_path))
        secret
      ∙ ap (λ o. with_secret hmac conf file w.anchor w.rows returns o) path
      ∙ ap (with_rows hmac conf file w.anchor) (backfill-sealed w.rows sealed)
      ∙ ap (with_hash hmac conf file w.anchor w.rows) e.chain
      ∙ ap (verified hmac conf) (
          verify_anchored_hash_lem conf.repair_hash_anchor file
            (started w.anchor w.rows w.last_hash) (anchor_outcome-started w ∙ e.anchored))

module _ (hmac : String → String) (filled : (text : String) → is_empty (hmac text) ≡ false)
    (conf : AuditConfig) where
  -- After a call of `write` that returns, a writer can be constructed over the same rows and anchor, as
  -- far as its secret and its path are accepted, and it has the same `lastHash`. Digests are taken not
  -- to be empty.
  pub construct-write_content :
      (database : Database) (file later : FileWrite) (c : Content) (w : AuditWriter)
      → assert_audit_hash_secret conf.environment conf.hash_secret ≡ returns
      → assert_audit_hash_anchor conf.environment conf.hash_anchor_path ≡ returns
      → (write_content hmac conf database file c w).0 ≡ returns
      → construct hmac conf later
          (write_content hmac conf database file c w).1.anchor
          (write_content hmac conf database file c w).1.rows
        ≡ constructed (
            started
              (write_content hmac conf database file c w).1.anchor
              (write_content hmac conf database file c w).1.rows
              (write_content hmac conf database file c w).1.last_hash)
  construct-write_content database file later c w secret path h =
      construct-Established hmac conf later c (write_content hmac conf database file c w).1 secret
        path (write_content-Established hmac filled conf database file c w h)
