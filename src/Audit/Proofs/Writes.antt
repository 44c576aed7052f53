-- ===== src/Audit/Proofs/Writes.antt =====
-- What `write` does to the rows, and what a call that returns has established.
use agent_trading_guardrails.Base.{
  String, eq_refl, ◌≡◌, refl, sym, ◌∙◌, inl, inr, ◌⊎◌, Bool, true, false, Option, none, some, List,
  [], ◌∷◌, ◌++◌, find, arith,
}
use mathlib.Core.Path.{subst}
use agent_trading_guardrails.Js.Text.{is_empty}
use agent_trading_guardrails.Audit.Types.{
  Content, Row, AuditError, AuditConfig, AuditWriter, Database, commits, locked, insert_fails,
  commit_fails, FileWrite, Outcome, returns, throws,
}
use agent_trading_guardrails.Audit.Chain.{recover_last_hash, recovered, unrecovered, Recovered}
use agent_trading_guardrails.Audit.Writer.{
  sealed_row, transaction, write_content, anchor_outcome, same_content, same_option, has_id,
  add_event, insert_row, repeat_event, with_recovered, commit, commit_end, Transacted,
  after_transaction, settle_repair, write_anchored_hash,
}
use agent_trading_guardrails.Audit.Proofs.Sealed.{recover_from-append}

Recovered-cases :
    (r : Recovered)
    → ((hash : String) × (r ≡ recovered hash)) ⊎ ((e : AuditError) × (r ≡ unrecovered e))
Recovered-cases (recovered h) = inl (h, refl)
Recovered-cases (unrecovered e) = inr (e, refl)

Outcome-cases : (o : Outcome) → (o ≡ returns) ⊎ ((e : AuditError) × (o ≡ throws e))
Outcome-cases returns = inl refl
Outcome-cases (throws e) = inr (e, refl)

same_option_refl : (o : Option String) → same_option o o ≡ true
same_option_refl none = refl
same_option_refl (some s) = eq_refl s

pub same_content_refl : (c : Content) → same_content c c ≡ true
unfolding same_content
same_content_refl c = ground (
  arith,
  eq_refl c.event_type,
  eq_refl c.correlation_id,
  eq_refl c.environment,
  eq_refl c.payload,
  same_option_refl c.intent_id,
  same_option_refl c.principal,
  same_option_refl c.prompt_id,
  same_option_refl c.session_id,
  same_option_refl c.input_ref,
)

pub find-append :
    (test : Row → Bool) (rows : List Row) (row : Row)
    → find test rows ≡ none
    → test row ≡ true
    → find test (rows ++ row ∷ []) ≡ some row
find-append test [] row h t = ground (arith, t)
find-append test (r ∷ rows) row h t = ground (arith, t, find-append test rows row (ground arith) t)

-- The rows after an operation: as they were, or with the new one at the end.
pub data Extends (hmac : String → String) (rows : List Row) (c : Content) : List Row → Type 0 where
  unchanged : Extends hmac rows c rows
  extended :
      (hash : String)
      → recover_last_hash hmac rows ≡ recovered hash
      → Extends hmac rows c (rows ++ sealed_row hmac hash c ∷ [])

module _ (hmac : String → String) (conf : AuditConfig) where
  repeat_event-writer :
      (c : Content) (existing : Row) (w : AuditWriter)
      → (repeat_event hmac conf c existing w).writer ≡ w
  unfolding repeat_event
  repeat_event-writer c existing w = ground arith

  insert_row-Extends :
      (database : Database) (c : Content) (w : AuditWriter) (o : Outcome)
      → recover_last_hash hmac w.rows ≡ recovered w.last_hash
      → Extends hmac w.rows c (insert_row hmac conf database c w o).writer.rows
  insert_row-Extends database c w (throws e) h = unchanged
  insert_row-Extends insert_fails c w returns h = unchanged
  insert_row-Extends commits c w returns h = extended w.last_hash h
  insert_row-Extends locked c w returns h = extended w.last_hash h
  insert_row-Extends commit_fails c w returns h = extended w.last_hash h

  add_event-Extends :
      (database : Database) (c : Content) (w : AuditWriter) (existing : Option Row)
      → recover_last_hash hmac w.rows ≡ recovered w.last_hash
      → Extends hmac w.rows c (add_event hmac conf database c w existing).writer.rows
  add_event-Extends database c w (some existing) h =
      subst (λ v. Extends hmac w.rows c v.rows) (sym (repeat_event-writer c existing w)) unchanged
  add_event-Extends database c w none h = insert_row-Extends database c w (anchor_outcome conf w) h

  commit-Extends :
      (database : Database) (c : Content) (rows : List Row) (t : Transacted) (o : Outcome)
      → Extends hmac rows c t.writer.rows
      → Extends hmac rows c (commit_end database rows t o).writer.rows
  commit-Extends commit_fails c rows t returns x = unchanged
  commit-Extends commit_fails c rows t (throws e) x = x
  commit-Extends commits c rows t o x = x
  commit-Extends locked c rows t o x = x
  commit-Extends insert_fails c rows t o x = x

  with_recovered-Extends :
      (database : Database) (c : Content) (w : AuditWriter) (r : Recovered)
      → recover_last_hash hmac w.rows ≡ r
      → Extends hmac w.rows c (with_recovered hmac conf database c w r).writer.rows
  with_recovered-Extends database c w (unrecovered e) h = unchanged
  with_recovered-Extends database c w (recovered hash) h =
      add_event-Extends database c (record w { last_hash = hash }) (find (has_id c.event_id) w.rows)
        h

  transacted_Extends :
      (database : Database) (c : Content) (w : AuditWriter)
      → Extends hmac w.rows c
          (commit database w.rows
            (with_recovered hmac conf database c w (recover_last_hash hmac w.rows))).writer.rows
  transacted_Extends database c w =
      let t = with_recovered hmac conf database c w (recover_last_hash hmac w.rows) in
      commit-Extends database c w.rows t t.outcome
        (with_recovered-Extends database c w (recover_last_hash hmac w.rows) refl)

  transaction-Extends :
      (database : Database) (c : Content) (w : AuditWriter)
      → Extends hmac w.rows c (transaction hmac conf database c w).writer.rows
  unfolding transaction
  transaction-Extends locked c w = unchanged
  transaction-Extends commits c w = transacted_Extends commits c w
  transaction-Extends insert_fails c w = transacted_Extends insert_fails c w
  transaction-Extends commit_fails c w = transacted_Extends commit_fails c w

  settle_repair-rows :
      (committed : Option String) (o : Outcome) (w : AuditWriter)
      → (settle_repair hmac conf committed (o, w)).1.rows ≡ w.rows
  settle_repair-rows none o w = refl
  settle_repair-rows (some hash) returns w = ground arith
  settle_repair-rows (some hash) (throws e) w = ground arith

  write_anchored_hash-rows :
      (file : FileWrite) (hash : Option String) (w : AuditWriter)
      → (write_anchored_hash conf file hash w).1.rows ≡ w.rows
  unfolding write_anchored_hash
  write_anchored_hash-rows file none w = refl
  write_anchored_hash-rows FileWrite.written (some hash) w = ground arith
  write_anchored_hash-rows FileWrite.fails_before_rename (some hash) w = ground arith
  write_anchored_hash-rows FileWrite.fails_after_rename (some hash) w = ground arith

  after_transaction-rows :
      (file : FileWrite) (w : AuditWriter) (hash : Option String) (o : Outcome)
      → (after_transaction hmac conf file w hash o).1.rows ≡ w.rows
  after_transaction-rows file w hash (throws e) = refl
  after_transaction-rows file w hash returns =
      let wrote = write_anchored_hash conf file hash w in
      settle_repair-rows hash wrote.0 wrote.1 ∙ write_anchored_hash-rows file hash w

  -- However the database and the file behave, `write` leaves the rows as they are or adds one row at
  -- their end, sealed with the hash that was recovered from them.
  pub write_content-Extends :
      (database : Database) (file : FileWrite) (c : Content) (w : AuditWriter)
      → Extends hmac w.rows c (write_content hmac conf database file c w).1.rows
  unfolding write_content
  write_content-Extends database file c w =
      let t = transaction hmac conf database c w in
      subst (Extends hmac w.rows c)
        (sym (after_transaction-rows file t.writer t.committed_hash t.outcome))
        (transaction-Extends database c w)

module _ (hmac : String → String) (filled : (text : String) → is_empty (hmac text) ≡ false) where
  Extends-recovered :
      {rows after : List Row} {c : Content} {hash : String}
      → Extends hmac rows c after
      → recover_last_hash hmac rows ≡ recovered hash
      → (end : String) × (recover_last_hash hmac after ≡ recovered end)
  unfolding recover_last_hash
  Extends-recovered {hash} unchanged h = (hash, h)
  Extends-recovered {rows} {c} (extended hash r) h =
      (_, recover_from-append hmac filled _ rows c {end = hash} r)

  -- Rows from which a hash can be recovered stay so, however a call of `write` goes: digests are taken
  -- not to be empty.
  pub write_content-recovered :
      (conf : AuditConfig) (database : Database) (file : FileWrite) (c : Content) (w : AuditWriter)
      {hash : String}
      → recover_last_hash hmac w.rows ≡ recovered hash
      → (end : String) × (recover_last_hash hmac (write_content hmac conf database file c w).1.rows
          ≡ recovered end)
  write_content-recovered conf database file c w {hash} h =
      Extends-recovered {hash = hash} (write_content-Extends hmac conf database file c w) h
