-- ===== src/Broker/Idempotency/Life.antt =====
-- What a reservation of the in-memory store promises, as a state machine of its own, without the store.
use agent_trading_guardrails.Base.{
  ℕ, String, ◌==◌, ◌≡◌, ◌&&◌, Option, none, some, List, [], ◌∷◌, if◌then◌else◌,
}
use agent_trading_guardrails.Broker.Idempotency.{
  Promise, unsettled, resolved, rejected, Reservation, known, waiting,
}
use agent_trading_guardrails.Broker.Idempotency.Laws.{
  Call, begin_call, complete_call, complete_audit_call, fail_audit_call, abort_call,
}

-- The life of one reservation: its holder runs, its audit event is to be written, it is done, its event
-- could not be written and was written later, or it was aborted.
pub data Life (R A E : Type 0) : Type 0 where
  running : Life R A E
  auditing : R → A → Life R A E
  done : R → Life R A E
  unaudited : R → A → E → Life R A E
  audited_late : R → E → Life R A E
  aborted : E → Life R A E

module _ {R A E : Type 0} where
  abbrev completed : R → Option A → Life R A E
  completed r none = done r
  completed r (some a) = auditing r a

  -- What a call with the reservation's own key and hash does.
  abbrev own_step : Life R A E → Call R A E → Life R A E
  own_step running (complete_call k h r audit) = completed r audit
  own_step running (abort_call k h e) = aborted e
  own_step (auditing r a) (complete_audit_call k h) = done r
  own_step (auditing r a) (fail_audit_call k h e) = unaudited r a e
  own_step (unaudited r a e) (complete_audit_call k h) = audited_late r e
  own_step life c = life

  abbrev call_key : Call R A E → String
  call_key (begin_call k h) = k
  call_key (complete_call k h r a) = k
  call_key (complete_audit_call k h) = k
  call_key (fail_audit_call k h e) = k
  call_key (abort_call k h e) = k

  abbrev call_hash : Call R A E → String
  call_hash (begin_call k h) = h
  call_hash (complete_call k h r a) = h
  call_hash (complete_audit_call k h) = h
  call_hash (fail_audit_call k h e) = h
  call_hash (abort_call k h e) = h

  abbrev pub life_step : String → String → Life R A E → Call R A E → Life R A E
  life_step key hash life c =
      if call_key c == key && call_hash c == hash then own_step life c else life

  unfoldable pub life_all : String → String → Life R A E → List (Call R A E) → Life R A E
  life_all key hash life [] = life
  life_all key hash life (c ∷ cs) = life_all key hash (life_step key hash life c) cs

  -- What those who wait on the reservation are told.
  abbrev pub outcome : Life R A E → Promise R E
  outcome running = unsettled
  outcome (auditing r a) = unsettled
  outcome (done r) = resolved r
  outcome (unaudited r a e) = rejected e
  outcome (audited_late r e) = rejected e
  outcome (aborted e) = rejected e

  -- What a later request with the same payload is given; after an abort the key is another's.
  abbrev pub Replies : ℕ → Life R A E → Reservation R A → Type 0
  Replies i running answer = answer ≡ waiting i
  Replies i (auditing r a) answer = answer ≡ known r (some a)
  Replies i (done r) answer = answer ≡ known r none
  Replies i (unaudited r a e) answer = answer ≡ known r (some a)
  Replies i (audited_late r e) answer = answer ≡ known r none
  Replies i (aborted e) answer = Unit
