-- ===== src/Audit/Scenarios.antt =====
-- An audit log with two events, and what the theorems say of it.
use Prim.Native.String.{count}
use agent_trading_guardrails.Base.{
  String, ◌==◌, ◌≡◌, refl, ap, inl, inr, Bool-cases, ◌⊎◌, ◌↔◌, false, none, some, List, [], ◌∷◌,
  if◌then◌else◌,
}
use agent_trading_guardrails.Schemas.{Environment}
use agent_trading_guardrails.Schemas.Json.{JsonFields, field, str, no_fields}
use agent_trading_guardrails.Audit.Types.{
  Content, Row, AuditConfig, AuditWriter, commits, commit_fails, written, fails_before_rename,
  file_error, returns, throws,
}
use agent_trading_guardrails.Audit.Redact.{redact_fields}
use agent_trading_guardrails.Broker.Keys.{units}
use agent_trading_guardrails.Audit.Chain.{
  zero_hash, content_text, compute_event_hash, recover_last_hash, recovered,
}
use agent_trading_guardrails.Audit.Writer.{
  sealed_row, transaction, write_content, anchor_outcome, verify_anchored_hash, write_anchored_hash,
}
use agent_trading_guardrails.Audit.Startup.{
  assert_audit_hash_secret, assert_audit_hash_anchor, constructed, started, construct,
  backfill_legacy_event_hashes, loaded,
}
use agent_trading_guardrails.Audit.Proofs.Sealed.{Sealed, recover_iff}
use agent_trading_guardrails.Audit.Proofs.Tamper.{Collision, texts, recovered-texts}
use agent_trading_guardrails.Audit.Proofs.Writes.{
  Extends, write_content-Extends, write_content-recovered,
}
use agent_trading_guardrails.Audit.Proofs.Returns.{Established, write_content-Established}
use agent_trading_guardrails.Audit.Proofs.Restart.{backfill-recovered, construct-write_content}
use agent_trading_guardrails.Audit.Proofs.Retry.{write_content-retry}
use agent_trading_guardrails.Audit.Proofs.Redaction.{HasRedacted, redact_fields-HasRedacted}

abbrev marks : String → String
marks text = String.◌∷◌ "h" text

abbrev other_hash : String
other_hash = "aaaaaaaaaaaaaaaaaaaaaaaaaaaaaaaaaaaaaaaaaaaaaaaaaaaaaaaaaaaaaaaa"

-- A digest of 64 digits.
abbrev digest : String → String
digest text = if text == "" then zero_hash else other_hash

abbrev event : String → Content
event id = record {
  event_id = id;
  event_type = "broker.executed";
  timestamp = "t1";
  correlation_id = "c";
  environment = "production";
  intent_id = some "i";
  principal = some "p";
  prompt_id = none;
  session_id = none;
  input_ref = none;
  payload = "{}";
}

abbrev config : AuditConfig
config = record {
  environment = Environment.production;
  hash_secret = "0123456789abcdef0123456789abcdef";
  hash_anchor_path = some "/anchor";
  repair_hash_anchor = false;
}

abbrev fresh_writer : AuditWriter
fresh_writer = record {
  rows = [];
  anchor = none;
  last_hash = zero_hash;
  pending_anchor_repair_hash = none;
}

abbrev first_row : Row
first_row = sealed_row marks zero_hash (event "e1")

abbrev legacy_row : Row
legacy_row = record { content = event "e1"; previous_hash = ""; event_hash = none }

recover_iff_example :
    (recover_last_hash marks (first_row ∷ [])
      ≡ recovered (compute_event_hash marks zero_hash (event "e1")))
    ↔ Sealed marks (first_row ∷ []) (compute_event_hash marks zero_hash (event "e1"))
recover_iff_example =
    recover_iff marks (λ text. refl) (first_row ∷ [])
      (compute_event_hash marks zero_hash (event "e1"))

digest_digits : (text : String) → count (digest text) ≡ 64
digest_digits text = elim (Bool-cases (text == "")) [
  | inl q ↦ ap (λ b. count (if b then zero_hash else other_hash)) q
  | inr q ↦ ap (λ b. count (if b then zero_hash else other_hash)) q
]

abbrev digest_rows : List Row
digest_rows = sealed_row digest zero_hash (event "e1") ∷ []

digest_recovered : recover_last_hash digest digest_rows ≡ recovered other_hash
unfolding recover_last_hash compute_event_hash content_text
digest_recovered = refl

-- A table with another event, whose hash is the same one: the digest collides on the two.
abbrev forged_rows : List Row
forged_rows = sealed_row digest zero_hash (event "e2") ∷ []

forged_recovered : recover_last_hash digest forged_rows ≡ recovered other_hash
unfolding recover_last_hash compute_event_hash content_text
forged_recovered = refl

recovered-texts_example :
    (texts digest_rows ≡ texts forged_rows) ⊎ Collision digest digest_rows forged_rows
recovered-texts_example =
    recovered-texts digest digest_digits digest_rows forged_rows other_hash digest_recovered
      forged_recovered

write_content-Extends_example :
    Extends marks []
      (event "e1")
      (write_content marks config commit_fails written (event "e1") fresh_writer).1.rows
write_content-Extends_example =
    write_content-Extends marks config commit_fails written (event "e1") fresh_writer

nothing_recovered : recover_last_hash marks [] ≡ recovered zero_hash
unfolding recover_last_hash
nothing_recovered = refl

write_content-recovered_example :
    (end : String) × (recover_last_hash marks
        (write_content marks config commits written (event "e1") fresh_writer).1.rows
      ≡ recovered end)
write_content-recovered_example =
    write_content-recovered marks (λ text. refl) config commits written (event "e1") fresh_writer
      {hash = zero_hash} nothing_recovered

wrote_first : (write_content marks config commits written (event "e1") fresh_writer).0 ≡ returns
unfolding write_content transaction recover_last_hash compute_event_hash content_text anchor_outcome
    verify_anchored_hash write_anchored_hash
wrote_first = refl

write_content-Established_example :
    Established marks config
      (event "e1")
      (write_content marks config commits written (event "e1") fresh_writer).1
write_content-Established_example =
    write_content-Established marks (λ text. refl) config commits written (event "e1") fresh_writer
      wrote_first

good_secret : assert_audit_hash_secret config.environment config.hash_secret ≡ returns
unfolding assert_audit_hash_secret units
good_secret = refl

good_path : assert_audit_hash_anchor config.environment config.hash_anchor_path ≡ returns
unfolding assert_audit_hash_anchor
good_path = refl

construct-write_content_example :
    construct marks config written
      (write_content marks config commits written (event "e1") fresh_writer).1.anchor
      (write_content marks config commits written (event "e1") fresh_writer).1.rows
    ≡ constructed (
        started
          (write_content marks config commits written (event "e1") fresh_writer).1.anchor
          (write_content marks config commits written (event "e1") fresh_writer).1.rows
          (write_content marks config commits written (event "e1") fresh_writer).1.last_hash)
construct-write_content_example =
    construct-write_content marks (λ text. refl) config commits written written (event "e1")
      fresh_writer good_secret good_path wrote_first

backfill-recovered_example :
    (after : List Row) × (end : String) × (backfill_legacy_event_hashes marks
        (legacy_row ∷ legacy_row ∷ [])
      ≡ loaded after)
    × (recover_last_hash marks after ≡ recovered end)
backfill-recovered_example =
    backfill-recovered marks (λ text. refl) legacy_row (legacy_row ∷ []) refl

committed_first : (transaction marks config commits (event "e1") fresh_writer).outcome ≡ returns
unfolding transaction recover_last_hash compute_event_hash content_text anchor_outcome
    verify_anchored_hash write_anchored_hash
committed_first = refl

unanchored_first :
    (write_content marks config commits fails_before_rename (event "e1") fresh_writer).0
    ≡ throws file_error
unfolding write_content transaction recover_last_hash compute_event_hash content_text anchor_outcome
    verify_anchored_hash write_anchored_hash
unanchored_first = refl

write_content-retry_example :
    ((write_content marks config commits written
        (record (event "e1") { timestamp = "t2" })
        (write_content marks config commits fails_before_rename (event "e1") fresh_writer).1).0
      ≡ returns)
    × ((write_content marks config commits written
          (record (event "e1") { timestamp = "t2" })
          (write_content marks config commits fails_before_rename
            (event "e1")
            fresh_writer).1).1.rows
        ≡ (write_content marks config commits fails_before_rename (event "e1") fresh_writer).1.rows)
write_content-retry_example =
    write_content-retry marks (λ text. refl) config fails_before_rename (event "e1") "t2"
      fresh_writer file_error committed_first unanchored_first

abbrev payload : JsonFields Unit
payload = field "apiKey" (str "k") (field "note" (str "key is 1") no_fields)

redact_fields-HasRedacted_example : HasRedacted (λ s. "x") (redact_fields (λ s. "x") payload)
redact_fields-HasRedacted_example = redact_fields-HasRedacted (λ s. "x") payload
