-- ===== src/Audit/Proofs/Returns.antt =====
-- What a call of `write` that returns has established.
use agent_trading_guardrails.Base.{
  String, eq_refl, ◌≡◌, refl, sym, ap, ◌∙◌, inl, inr, ◌⊎◌, true, false, Option, none, some, List,
  find, arith,
}
use mathlib.Core.Path.{subst}
use agent_trading_guardrails.Js.Text.{is_empty}
use agent_trading_guardrails.Audit.Types.{
  Content, Row, AuditConfig, AuditWriter, Database, FileWrite, Outcome, returns, throws,
}
use agent_trading_guardrails.Audit.Chain.{compute_event_hash, recover_last_hash, recovered}
use agent_trading_guardrails.Audit.Writer.{
  transaction, write_content, anchor_outcome, same_content, has_id, Transacted, after_transaction,
  settle_repair, write_anchored_hash, verify_anchored_hash,
}
use agent_trading_guardrails.Audit.Proofs.Sealed.{Sealed, no_rows, next_row, recover-Sealed}
use agent_trading_guardrails.Audit.Proofs.Committed.{Ready, transaction-Ready}

-- The rows hold the event, the chain ends in `lastHash`, and the anchor agrees with it.
pub record Established (hmac : String → String) (conf : AuditConfig) (c : Content) (w : AuditWriter)
    : Type 0 where
  pub chain : recover_last_hash hmac w.rows ≡ recovered w.last_hash
  pub stored :
      (row : Row) × (find (has_id c.event_id) w.rows ≡ some row)
      × (same_content row.content c ≡ true)
  pub anchored : anchor_outcome conf w ≡ returns

module _ (hmac : String → String) (filled : (text : String) → is_empty (hmac text) ≡ false)
    (conf : AuditConfig) where
  -- A hash that is recovered is not empty, so that `writeAnchoredHash` does not skip it.
  pub Sealed-filled :
      {rows : List Row} {hash : String} → Sealed hmac rows hash → is_empty hash ≡ false
  unfolding compute_event_hash
  Sealed-filled no_rows = refl
  Sealed-filled (next_row s c) = filled _

  anchor_written :
      (file : FileWrite) (w : AuditWriter)
      → is_empty w.last_hash ≡ false
      → (write_anchored_hash conf file (some w.last_hash) w).0 ≡ returns
      → anchor_outcome conf (write_anchored_hash conf file (some w.last_hash) w).1 ≡ returns
  unfolding anchor_outcome verify_anchored_hash write_anchored_hash
  anchor_written FileWrite.written w full h = ground (arith, full, eq_refl w.last_hash)
  anchor_written FileWrite.fails_before_rename w full h = ground (arith, full, eq_refl w.last_hash)
  anchor_written FileWrite.fails_after_rename w full h = ground (arith, full, eq_refl w.last_hash)

  -- The fields that `writeAnchoredHash` and the `try` around it leave as they are.
  pub record Same (w v : AuditWriter) : Type 0 where
    pub rows : v.rows ≡ w.rows
    pub last_hash : v.last_hash ≡ w.last_hash

  pub write_anchored_hash-Same :
      (file : FileWrite) (hash : Option String) (w : AuditWriter)
      → Same w (write_anchored_hash conf file hash w).1
  unfolding write_anchored_hash
  write_anchored_hash-Same file none w = record { rows = refl; last_hash = refl }
  write_anchored_hash-Same FileWrite.written (some hash) w = record {
    rows = ground arith;
    last_hash = ground arith;
  }
  write_anchored_hash-Same FileWrite.fails_before_rename (some hash) w = record {
    rows = ground arith;
    last_hash = ground arith;
  }
  write_anchored_hash-Same FileWrite.fails_after_rename (some hash) w = record {
    rows = ground arith;
    last_hash = ground arith;
  }

  -- A call whose anchor was written returns; only the pending repair may be cleared.
  settle_repair-returns :
      (hash : Option String) (o : Outcome) (w : AuditWriter)
      → (settle_repair hmac conf hash (o, w)).0 ≡ returns
      → (o ≡ returns)
        × Same w (settle_repair hmac conf hash (o, w)).1
        × (anchor_outcome conf (settle_repair hmac conf hash (o, w)).1 ≡ anchor_outcome conf w)
  unfolding anchor_outcome verify_anchored_hash
  settle_repair-returns none o w h = (h, record { rows = refl; last_hash = refl }, refl)
  settle_repair-returns (some hash) returns w h =
      (refl, record { rows = ground arith; last_hash = ground arith }, ground arith)
  settle_repair-returns (some hash) (throws e) w h = absurd (ground arith)

  unwritten :
      (file : FileWrite) (w : AuditWriter)
      → anchor_outcome conf (write_anchored_hash conf file none w).1 ≡ anchor_outcome conf w
  unfolding write_anchored_hash
  unwritten file w = refl

  wrote_anchored :
      (file : FileWrite) (w : AuditWriter) (hash : Option String)
      → is_empty w.last_hash ≡ false
      → (row : Row)
      → ((hash ≡ none) × (anchor_outcome conf w ≡ returns))
        ⊎ ((hash ≡ some w.last_hash) × (row.event_hash ≡ some w.last_hash))
      → (write_anchored_hash conf file hash w).0 ≡ returns
      → anchor_outcome conf (write_anchored_hash conf file hash w).1 ≡ returns
  wrote_anchored file w hash full row (inl skipped) h =
      subst (λ k. anchor_outcome conf (write_anchored_hash conf file k w).1 ≡ returns)
        (sym skipped.0) (unwritten file w ∙ skipped.1)
  wrote_anchored file w hash full row (inr (last, _)) h =
      subst (λ k. anchor_outcome conf (write_anchored_hash conf file k w).1 ≡ returns) (sym last)
        (anchor_written file w full
          (subst (λ k. (write_anchored_hash conf file k w).0 ≡ returns) last h))

  after_transaction-Established :
      (file : FileWrite) (c : Content) (t : Transacted)
      → Ready hmac conf c t
      → (settle_repair hmac conf t.committed_hash
          (write_anchored_hash conf file t.committed_hash t.writer)).0
        ≡ returns
      → Established hmac conf c
          (settle_repair hmac conf t.committed_hash
            (write_anchored_hash conf file t.committed_hash t.writer)).1
  after_transaction-Established file c t ready h =
      let wrote = write_anchored_hash conf file t.committed_hash t.writer in
      let settled = settle_repair-returns t.committed_hash wrote.0 wrote.1 h in
      let kept = write_anchored_hash-Same file t.committed_hash t.writer in
      let rows_kept = settled.1.rows ∙ kept.rows in
      let hash_kept = settled.1.last_hash ∙ kept.last_hash in
      let stored = ready.stored in
      record {
        chain = ap (recover_last_hash hmac) rows_kept ∙ ready.chain ∙ ap recovered (sym hash_kept);
        stored = (stored.0, ap (find (has_id c.event_id)) rows_kept ∙ stored.1, stored.2);
        anchored =
            settled.2
            ∙ wrote_anchored file t.writer t.committed_hash
                (Sealed-filled
                  (recover-Sealed hmac t.writer.rows {end = t.writer.last_hash} ready.chain))
                stored.0 ready.committed settled.0;
      }

  returned_Established :
      (file : FileWrite) (c : Content) (t : Transacted) (o : Outcome)
      → (o ≡ returns → Ready hmac conf c t)
      → (after_transaction hmac conf file t.writer t.committed_hash o).0 ≡ returns
      → Established hmac conf c (after_transaction hmac conf file t.writer t.committed_hash o).1
  returned_Established file c t (throws e) ready h = absurd (ground arith)
  returned_Established file c t returns ready h =
      after_transaction-Established file c t (ready refl) h

  -- A call of `write` that returns has stored its event: the row that is found under its id has its
  -- content, the hash that is recovered from the rows is `lastHash`, and the anchor agrees with it.
  -- Digests are taken not to be empty.
  pub write_content-Established :
      (database : Database) (file : FileWrite) (c : Content) (w : AuditWriter)
      → (write_content hmac conf database file c w).0 ≡ returns
      → Established hmac conf c (write_content hmac conf database file c w).1
  unfolding write_content
  write_content-Established database file c w h =
      let t = transaction hmac conf database c w in
      returned_Established file c t t.outcome (transaction-Ready hmac filled conf database c w) h
