-- ===== src/Audit/Proofs/Retry.antt =====
-- A call whose row was stored and whose anchor was not: the same event, written again.
use agent_trading_guardrails.Base.{
  String, eq_refl, ◌≡◌, refl, sym, ap, ◌∙◌, inl, inr, true, false, none, some, find, arith,
}
use mathlib.Core.Path.{subst}
use agent_trading_guardrails.Js.Text.{is_empty}
use agent_trading_guardrails.Audit.Types.{
  Content, Row, AuditError, AuditConfig, AuditWriter, commits, FileWrite, written, Outcome, returns,
  throws,
}
use agent_trading_guardrails.Audit.Chain.{recover_last_hash, recovered}
use agent_trading_guardrails.Audit.Writer.{
  write_content, anchor_outcome, same_content, has_id, transaction, repeat_event, repeat_end,
  write_anchored_hash, after_transaction, settle_repair, with_recovered, commit, add_event, is_text,
  Transacted,
}
use agent_trading_guardrails.Audit.Proofs.Committed.{Ready, transaction-Ready}
use agent_trading_guardrails.Audit.Proofs.Returns.{write_anchored_hash-Same, Sealed-filled}
use agent_trading_guardrails.Audit.Proofs.Sealed.{recover-Sealed}

module _ (hmac : String → String) (conf : AuditConfig) where
  -- The event is there as the last row, and its anchor is still to be repaired.
  record Unanchored (c : Content) (hash : String) (w : AuditWriter) : Type 0 where
    pub chain : recover_last_hash hmac w.rows ≡ recovered hash
    pub row : Row
    pub found : find (has_id c.event_id) w.rows ≡ some row
    pub same : same_content row.content c ≡ true
    pub is_last : row.event_hash ≡ some hash
    pub is_pending : w.pending_anchor_repair_hash ≡ some hash

  abbrev repairs : String → AuditWriter → Transacted
  repairs hash w = record {
    outcome = returns;
    committed_hash = some hash;
    writer = record w { last_hash = hash };
  }

  repeat_event-Unanchored :
      (c : Content) (hash : String) (w : AuditWriter) (u : Unanchored c hash w)
      → repeat_event hmac conf c u.row (record w { last_hash = hash }) ≡ repairs hash w
  unfolding repeat_event
  repeat_event-Unanchored c hash w u =
      let last : is_text u.row.event_hash hash ≡ true =
        ap (λ h. is_text h hash) u.is_last ∙ eq_refl hash in
      let pending : is_text w.pending_anchor_repair_hash hash ≡ true =
        ap (λ h. is_text h hash) u.is_pending ∙ eq_refl hash in
      let w' = record w { last_hash = hash } in
      ap
        (λ b.
          repeat_end hmac conf b (is_text u.row.event_hash hash)
            (is_text w.pending_anchor_repair_hash hash) (anchor_outcome conf w') w')
        u.same
      ∙ ap
          (λ b.
            repeat_end hmac conf true b (is_text w.pending_anchor_repair_hash hash)
              (anchor_outcome conf w') w')
          last
      ∙ ap (λ b. repeat_end hmac conf true true b (anchor_outcome conf w') w') pending

  transaction-Unanchored :
      (c : Content) (hash : String) (w : AuditWriter)
      → Unanchored c hash w
      → transaction hmac conf commits c w ≡ repairs hash w
  unfolding transaction
  transaction-Unanchored c hash w u =
      ap (λ r. commit commits w.rows (with_recovered hmac conf commits c w r)) u.chain
      ∙ ap
          (λ e.
            commit commits w.rows (add_event hmac conf commits c (record w { last_hash = hash }) e))
          u.found
      ∙ ap (commit commits w.rows) (repeat_event-Unanchored c hash w u)

  settled_written :
      (hash : String) (w : AuditWriter)
      → ((settle_repair hmac conf (some hash) (write_anchored_hash conf written (some hash) w)).0
          ≡ returns)
        × ((settle_repair hmac conf
              (some hash)
              (write_anchored_hash conf written (some hash) w)).1.rows
            ≡ w.rows)
  unfolding write_anchored_hash
  settled_written hash w = (ground arith, ground arith)

  repaired_Unanchored :
      (c : Content) (hash : String) (w : AuditWriter)
      → Unanchored c hash w
      → ((write_content hmac conf commits written c w).0 ≡ returns)
        × ((write_content hmac conf commits written c w).1.rows ≡ w.rows)
  unfolding write_content
  repaired_Unanchored c hash w u =
      let same_transaction = transaction-Unanchored c hash w u in
      let done = settled_written hash (repairs hash w).writer in
      (
        ap (λ t. (after_transaction hmac conf written t.writer t.committed_hash t.outcome).0)
              same_transaction
            ∙ done.0,
        ap (λ t. (after_transaction hmac conf written t.writer t.committed_hash t.outcome).1.rows)
              same_transaction
            ∙ done.1,
      )

module _ (hmac : String → String) (filled : (text : String) → is_empty (hmac text) ≡ false)
    (conf : AuditConfig) where
  settle_repair-throws :
      (hash : String) (o : Outcome) (w : AuditWriter) (e : AuditError)
      → is_empty hash ≡ false
      → (settle_repair hmac conf (some hash) (o, w)).0 ≡ throws e
      → ((settle_repair hmac conf (some hash) (o, w)).1.rows ≡ w.rows)
        × ((settle_repair hmac conf (some hash) (o, w)).1.pending_anchor_repair_hash ≡ some hash)
  settle_repair-throws hash returns w e full h = absurd (ground arith)
  settle_repair-throws hash (throws x) w e full h = (ground (arith, full), ground (arith, full))

  same_content-later :
      (a c : Content) (later : String)
      → same_content a (record c { timestamp = later }) ≡ same_content a c
  unfolding same_content
  same_content-later a c later = refl

  unwritten_returns :
      (file : FileWrite) (w : AuditWriter)
      → (settle_repair hmac conf none (write_anchored_hash conf file none w)).0 ≡ returns
  unfolding write_anchored_hash
  unwritten_returns file w = refl

  settled_Unanchored :
      (file : FileWrite) (c : Content) (later : String) (t : Transacted) (e : AuditError)
      → Ready hmac conf c t
      → (settle_repair hmac conf t.committed_hash
          (write_anchored_hash conf file t.committed_hash t.writer)).0
        ≡ throws e
      → Unanchored hmac conf
          (record c { timestamp = later })
          t.writer.last_hash
          (settle_repair hmac conf t.committed_hash
            (write_anchored_hash conf file t.committed_hash t.writer)).1
  settled_Unanchored file c later t e ready h = elim ready.committed [
    | inl skipped ↦
        let was : (settle_repair hmac conf none (write_anchored_hash conf file none t.writer)).0
            ≡ throws e =
          subst
            (λ k.
              (settle_repair hmac conf k (write_anchored_hash conf file k t.writer)).0 ≡ throws e)
            skipped.0 h in
        let never : returns ≡ throws e = sym (unwritten_returns file t.writer) ∙ was in
        absurd (ground (arith, never))
    | inr kept ↦
        let hash = t.writer.last_hash in
        let wrote = write_anchored_hash conf file (some hash) t.writer in
        let was : (settle_repair hmac conf (some hash) wrote).0 ≡ throws e =
          subst
            (λ k.
              (settle_repair hmac conf k (write_anchored_hash conf file k t.writer)).0 ≡ throws e)
            kept.0 h in
        let full =
          Sealed-filled hmac filled conf
            (recover-Sealed hmac t.writer.rows {end = hash} ready.chain) in
        let facts = settle_repair-throws hash wrote.0 wrote.1 e full was in
        let rows_kept =
          facts.0 ∙ (write_anchored_hash-Same hmac filled conf file (some hash) t.writer).rows in
        let stored = ready.stored in
        subst
          (λ k.
            Unanchored hmac conf (record c { timestamp = later }) hash
              (settle_repair hmac conf k (write_anchored_hash conf file k t.writer)).1)
          (sym kept.0)
          (record {
            chain = ap (recover_last_hash hmac) rows_kept ∙ ready.chain;
            row = stored.0;
            found = ap (find (has_id c.event_id)) rows_kept ∙ stored.1;
            same = same_content-later stored.0.content c later ∙ stored.2;
            is_last = kept.1;
            is_pending = facts.1;
          })
  ]

  after_Unanchored :
      (file : FileWrite) (c : Content) (later : String) (t : Transacted) (o : Outcome)
      (e : AuditError)
      → Ready hmac conf c t
      → o ≡ returns
      → (after_transaction hmac conf file t.writer t.committed_hash o).0 ≡ throws e
      → Unanchored hmac conf
          (record c { timestamp = later })
          t.writer.last_hash
          (after_transaction hmac conf file t.writer t.committed_hash o).1
  after_Unanchored file c later t returns e ready p h = settled_Unanchored file c later t e ready h
  after_Unanchored file c later t (throws x) e ready p h = absurd (ground arith)

  is_Unanchored :
      (file : FileWrite) (c : Content) (later : String) (w : AuditWriter) (e : AuditError)
      → (transaction hmac conf commits c w).outcome ≡ returns
      → (write_content hmac conf commits file c w).0 ≡ throws e
      → Unanchored hmac conf
          (record c { timestamp = later })
          (transaction hmac conf commits c w).writer.last_hash
          (write_content hmac conf commits file c w).1
  unfolding write_content
  is_Unanchored file c later w e committed h =
      let t = transaction hmac conf commits c w in
      after_Unanchored file c later t t.outcome e
        (transaction-Ready hmac filled conf commits c w committed) committed h

  -- When a row was committed and its anchor could not be written, the same event, written again later
  -- when the file can be written, is accepted and adds no row. Digests are taken not to be empty.
  pub write_content-retry :
      (file : FileWrite) (c : Content) (later : String) (w : AuditWriter) (e : AuditError)
      → (transaction hmac conf commits c w).outcome ≡ returns
      → (write_content hmac conf commits file c w).0 ≡ throws e
      → ((write_content hmac conf commits written
            (record c { timestamp = later })
            (write_content hmac conf commits file c w).1).0
          ≡ returns)
        × ((write_content hmac conf commits written
              (record c { timestamp = later })
              (write_content hmac conf commits file c w).1).1.rows
            ≡ (write_content hmac conf commits file c w).1.rows)
  write_content-retry file c later w e committed h =
      repaired_Unanchored hmac conf (record c { timestamp = later })
        (transaction hmac conf commits c w).writer.last_hash
        (write_content hmac conf commits file c w).1 (is_Unanchored file c later w e committed h)
