-- ===== src/Audit/Proofs/Committed.antt =====
-- What the transaction of `write` leaves when its callback returns.
use agent_trading_guardrails.Base.{
  String, eq_iff, eq_refl, ◌≡◌, refl, ap, ◌∙◌, inl, inr, ◌⊎◌, Bool, true, false, Option, none, some,
  List, find, arith,
}
use agent_trading_guardrails.Js.Text.{is_empty}
use agent_trading_guardrails.Audit.Types.{
  Content, Row, AuditConfig, AuditWriter, Database, commits, locked, insert_fails, commit_fails,
  Outcome, returns, throws,
}
use agent_trading_guardrails.Audit.Chain.{
  compute_event_hash, recover_last_hash, recovered, unrecovered, Recovered,
}
use agent_trading_guardrails.Audit.Writer.{
  sealed_row, transaction, anchor_outcome, same_content, has_id, add_event, insert_row, repeat_end,
  is_text, repeat_event, with_recovered, with_row, commit, commit_end, Transacted,
}
use agent_trading_guardrails.Audit.Proofs.Sealed.{recover_from-append}
use agent_trading_guardrails.Audit.Proofs.Writes.{find-append, same_content_refl}

-- What the callback of the transaction leaves when it returns.
pub record Ready (hmac : String → String) (conf : AuditConfig) (c : Content) (t : Transacted)
    : Type 0 where
  pub chain : recover_last_hash hmac t.writer.rows ≡ recovered t.writer.last_hash
  pub stored :
      (row : Row) × (find (has_id c.event_id) t.writer.rows ≡ some row)
      × (same_content row.content c ≡ true)
  pub committed :
      ((t.committed_hash ≡ none) × (anchor_outcome conf t.writer ≡ returns))
      ⊎ ((t.committed_hash ≡ some t.writer.last_hash)
          × (stored.0.event_hash ≡ some t.writer.last_hash))

module _ (hmac : String → String) (filled : (text : String) → is_empty (hmac text) ≡ false)
    (conf : AuditConfig) where
  is_text_lem : (o : Option String) (t : String) → is_text o t ≡ true → o ≡ some t
  is_text_lem none t h = absurd (ground arith)
  is_text_lem (some s) t h = ap some ((eq_iff s t).0 h)

  repeat_end-Ready :
      (same is_last is_pending : Bool) (checked : Outcome) (c : Content) (existing : Row)
      (w : AuditWriter)
      → (repeat_end hmac conf same is_last is_pending checked w).outcome ≡ returns
      → same_content existing.content c ≡ same
      → is_text existing.event_hash w.last_hash ≡ is_last
      → anchor_outcome conf w ≡ checked
      → recover_last_hash hmac w.rows ≡ recovered w.last_hash
      → find (has_id c.event_id) w.rows ≡ some existing
      → Ready hmac conf c (repeat_end hmac conf same is_last is_pending checked w)
  repeat_end-Ready false _ p o c existing w h s l a chain found = absurd (ground arith)
  repeat_end-Ready true false p o c existing w h s l a chain found = record {
    chain = chain;
    stored = (existing, found, s);
    committed = inl (refl, a ∙ h);
  }
  repeat_end-Ready true true false o c existing w h s l a chain found = record {
    chain = chain;
    stored = (existing, found, s);
    committed = inl (refl, a ∙ h);
  }
  repeat_end-Ready true true true o c existing w h s l a chain found = record {
    chain = chain;
    stored = (existing, found, s);
    committed = inr (refl, is_text_lem existing.event_hash w.last_hash l);
  }

  repeat_event-Ready :
      (c : Content) (existing : Row) (w : AuditWriter)
      → (repeat_event hmac conf c existing w).outcome ≡ returns
      → recover_last_hash hmac w.rows ≡ recovered w.last_hash
      → find (has_id c.event_id) w.rows ≡ some existing
      → Ready hmac conf c (repeat_event hmac conf c existing w)
  unfolding repeat_event
  repeat_event-Ready c existing w h chain found =
      repeat_end-Ready (same_content existing.content c) (is_text existing.event_hash w.last_hash)
        (is_text w.pending_anchor_repair_hash w.last_hash) (anchor_outcome conf w) c existing w h
        refl refl refl chain found

  inserted-Ready :
      (c : Content) (w : AuditWriter)
      → recover_last_hash hmac w.rows ≡ recovered w.last_hash
      → find (has_id c.event_id) w.rows ≡ none
      → Ready hmac conf c (record {
        outcome = returns;
        committed_hash = some (compute_event_hash hmac w.last_hash c);
        writer = with_row hmac c w;
      })
  unfolding recover_last_hash
  inserted-Ready c w chain found = record {
    chain = recover_from-append hmac filled _ w.rows c {end = w.last_hash} chain;
    stored = (
      sealed_row hmac w.last_hash c,
      find-append (has_id c.event_id) w.rows (sealed_row hmac w.last_hash c) found
          (eq_refl c.event_id),
      same_content_refl c,
    );
    committed = inr (refl, refl);
  }

  insert_row-Ready :
      (database : Database) (c : Content) (w : AuditWriter) (o : Outcome)
      → (insert_row hmac conf database c w o).outcome ≡ returns
      → recover_last_hash hmac w.rows ≡ recovered w.last_hash
      → find (has_id c.event_id) w.rows ≡ none
      → Ready hmac conf c (insert_row hmac conf database c w o)
  insert_row-Ready database c w (throws e) h chain found = absurd (ground arith)
  insert_row-Ready insert_fails c w returns h chain found = absurd (ground arith)
  insert_row-Ready commits c w returns h chain found = inserted-Ready c w chain found
  insert_row-Ready locked c w returns h chain found = inserted-Ready c w chain found
  insert_row-Ready commit_fails c w returns h chain found = inserted-Ready c w chain found

  add_event-Ready :
      (database : Database) (c : Content) (w : AuditWriter) (existing : Option Row)
      → (add_event hmac conf database c w existing).outcome ≡ returns
      → recover_last_hash hmac w.rows ≡ recovered w.last_hash
      → find (has_id c.event_id) w.rows ≡ existing
      → Ready hmac conf c (add_event hmac conf database c w existing)
  add_event-Ready database c w (some existing) h chain found =
      repeat_event-Ready c existing w h chain found
  add_event-Ready database c w none h chain found =
      insert_row-Ready database c w (anchor_outcome conf w) h chain found

  with_recovered-Ready :
      (database : Database) (c : Content) (w : AuditWriter) (r : Recovered)
      → (with_recovered hmac conf database c w r).outcome ≡ returns
      → recover_last_hash hmac w.rows ≡ r
      → Ready hmac conf c (with_recovered hmac conf database c w r)
  with_recovered-Ready database c w (unrecovered e) h chain = absurd (ground arith)
  with_recovered-Ready database c w (recovered hash) h chain =
      add_event-Ready database c (record w { last_hash = hash }) (find (has_id c.event_id) w.rows) h
        chain refl

  commit_end-Ready :
      (database : Database) (c : Content) (rows : List Row) (t : Transacted) (o : Outcome)
      → t.outcome ≡ o
      → (commit_end database rows t o).outcome ≡ returns
      → (t.outcome ≡ returns → Ready hmac conf c t)
      → Ready hmac conf c (commit_end database rows t o)
  commit_end-Ready commit_fails c rows t returns p h k = absurd (ground arith)
  commit_end-Ready commit_fails c rows t (throws e) p h k = k h
  commit_end-Ready commits c rows t o p h k = k h
  commit_end-Ready locked c rows t o p h k = k h
  commit_end-Ready insert_fails c rows t o p h k = k h

  transacted_Ready :
      (database : Database) (c : Content) (w : AuditWriter)
      → (commit database w.rows
          (with_recovered hmac conf database c w (recover_last_hash hmac w.rows))).outcome
        ≡ returns
      → Ready hmac conf c (
          commit database w.rows
            (with_recovered hmac conf database c w (recover_last_hash hmac w.rows)))
  transacted_Ready database c w h =
      let t = with_recovered hmac conf database c w (recover_last_hash hmac w.rows) in
      commit_end-Ready database c w.rows t t.outcome refl h
        (λ k. with_recovered-Ready database c w (recover_last_hash hmac w.rows) k refl)

  pub transaction-Ready :
      (database : Database) (c : Content) (w : AuditWriter)
      → (transaction hmac conf database c w).outcome ≡ returns
      → Ready hmac conf c (transaction hmac conf database c w)
  unfolding transaction
  transaction-Ready locked c w h = absurd (ground arith)
  transaction-Ready commits c w h = transacted_Ready commits c w h
  transaction-Ready insert_fails c w h = transacted_Ready insert_fails c w h
  transaction-Ready commit_fails c w h = transacted_Ready commit_fails c w h
