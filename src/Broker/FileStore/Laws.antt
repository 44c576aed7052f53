-- ===== src/Broker/FileStore/Laws.antt =====
-- What the file of `FileBrokerIdempotencyStore` keeps, whatever several processes do to it and however
-- often they are started again.
use agent_trading_guardrails.Base.{
  String, eq_iff, eq_refl, ◌≡◌, ◌≢◌, ◌⊎◌, Option, none, some, List, [], ◌∷◌, All, arith,
}
use agent_trading_guardrails.Base.Dict
use agent_trading_guardrails.Base.Dict.{Dict, get-put, get-remove, get-empty}
use agent_trading_guardrails.Broker.FileStore.{
  FileEntry, stored, Open, Process, started, Locking, replaced, Shared, FileReservation, reserved,
  begin, complete, complete_audit, complete_cached_audit, fail_audit, abort, known,
}

-- The processes by their names, and the file that they share.
pub record Cluster (R A E : Type 0) : Type 0 where
  pub processes : Dict (Process R E)
  pub file : Dict (FileEntry R A)

-- One call of the store by a process, or the end of a process: another one has its name afterwards.
pub data Act (R A E : Type 0) : Type 0 where
  begins : (key hash : String) → (R → Option A → Option E) → Locking E → Act R A E
  completes : (key hash : String) → R → Option A → Locking E → Act R A E
  completes_audit : E → (key hash : String) → Locking E → Act R A E
  completes_cached_audit : (key hash : String) → Locking E → Act R A E
  fails_audit : (key hash : String) → E → Act R A E
  aborts : (key hash : String) → E → Locking E → Act R A E
  restarts : Act R A E

abbrev or_started : {R E : Type 0} → Option (Process R E) → Process R E
or_started none = started
or_started (some p) = p

module _ {R A : Type 0} where
  -- The entry is this result, stored under this hash, with this event or with none any more.
  abbrev pub HasStored : String → R → Option A → Option (FileEntry R A) → Type 0
  HasStored hash result event (some (stored h v audit)) =
      (h ≡ hash) × (v ≡ result) × ((audit ≡ none) ⊎ (audit ≡ event))
  HasStored hash result event _ = ⊥

module _ {R A E : Type 0} where
  unfoldable pub act : Act R A E → Shared R A E → Shared R A E
  act (begins key hash error locking) s = (begin key hash error locking s).1
  act (completes key hash result audit locking) s = (complete key hash result audit locking s).1
  act (completes_audit missing key hash locking) s = (complete_audit missing key hash locking s).1
  act (completes_cached_audit key hash locking) s = (complete_cached_audit key hash locking s).1
  act (fails_audit key hash error) s = fail_audit key hash error s
  act (aborts key hash error locking) s = (abort key hash error locking s).1
  act restarts s = record s { process = started }

  abbrev pub seen_by : String → Cluster R A E → Shared R A E
  seen_by name c = record { process = or_started (Dict.get name c.processes); file = c.file }

  abbrev pub left_by : String → Cluster R A E → Shared R A E → Cluster R A E
  left_by name c s = record { processes = Dict.put name s.process c.processes; file = s.file }

  abbrev step : Cluster R A E → String × Act R A E → Cluster R A E
  step c (name, a) = left_by name c (act a (seen_by name c))

  unfoldable pub act_all : Cluster R A E → List (String × Act R A E) → Cluster R A E
  act_all c [] = c
  act_all c (x ∷ xs) = act_all (step c x) xs

  abbrev pub Held : String → Shared R A E → Type 0
  Held key s = Dict.get key s.file ≢ none

  -- The calls that are not an abort of this key.
  abbrev pub AbortsNot : String → String × Act R A E → Type 0
  AbortsNot key (name, aborts k h e l) = k ≢ key
  AbortsNot key _ = Unit

  act-Held :
      (key name : String) (a : Act R A E) (s : Shared R A E)
      → AbortsNot key (name, a)
      → Held key s
      → Held key (act a s)
  unfolding act begin complete complete_audit complete_cached_audit fail_audit abort
  act-Held key name (begins k h e l) s n held = grind (arith, eq_iff, get-put)
  act-Held key name (completes k h r a l) s n held = grind (arith, eq_iff, get-put)
  act-Held key name (completes_audit m k h l) s n held = grind (arith, eq_iff, get-put)
  act-Held key name (completes_cached_audit k h l) s n held = grind (arith, eq_iff, get-put)
  act-Held key name (fails_audit k h e) s n held = held
  act-Held key name (aborts k h e l) s n held = grind (arith, eq_iff, get-remove)
  act-Held key name restarts s n held = held

  act_all-Held :
      (key : String) (c : Cluster R A E) (acts : List (String × Act R A E))
      → All (AbortsNot key) acts
      → Dict.get key c.file ≢ none
      → Dict.get key (act_all c acts).file ≢ none
  unfolding act_all
  act_all-Held key c [] n held = held
  act_all-Held key c ((name, a) ∷ acts) n held =
      act_all-Held key (step c (name, a)) acts n.1 (act-Held key name a (seen_by name c) n.0 held)

  begin-Held :
      (key hash : String) (error : R → Option A → Option E) (locking : Locking E) (s : Shared R A E)
      → (begin key hash error locking s).0 ≡ reserved
      → Held key (begin key hash error locking s).1
  unfolding begin
  begin-Held key hash error locking s r = grind (arith, eq_refl, get-put)

  Held-not_reserved :
      (key hash : String) (error : R → Option A → Option E) (locking : Locking E) (s : Shared R A E)
      → Held key s
      → (begin key hash error locking s).0 ≢ reserved
  unfolding begin
  Held-not_reserved key hash error locking s held = grind arith

  -- At most once across processes and restarts: when a process was given a reservation of a key, then
  -- whatever processes do and however often they are started again, and whether a call replaces the file,
  -- throws before it does or throws after it, no `begin` of this key is given one, by any process, unless
  -- the key was aborted. Nobody else changes or deletes the file.
  pub reserved_for_one :
      (key hash hash' first other : String) (error error' : R → Option A → Option E)
      (locking locking' : Locking E) (c : Cluster R A E) (acts : List (String × Act R A E))
      → (begin key hash error locking (seen_by first c)).0 ≡ reserved
      → All (AbortsNot key) acts
      → (begin key hash' error' locking' (
          seen_by other
            (act_all (left_by first c (begin key hash error locking (seen_by first c)).1) acts))).0
        ≢ reserved
  reserved_for_one key hash hash' first other error error' locking locking' c acts r n =
      Held-not_reserved key hash' error' locking' _
        (act_all-Held key _ acts n (begin-Held key hash error locking (seen_by first c) r))

  abbrev pub Stored : String → String → R → Option A → Shared R A E → Type 0
  Stored key hash result event s = HasStored hash result event (Dict.get key s.file)

  -- The calls that are not a completion of this key.
  abbrev pub CompletesNot : String → String × Act R A E → Type 0
  CompletesNot key (name, completes k h r a l) = k ≢ key
  CompletesNot key _ = Unit

  act-Stored :
      (key hash name : String) (result : R) (event : Option A) (a : Act R A E) (s : Shared R A E)
      → CompletesNot key (name, a)
      → Stored key hash result event s
      → Stored key hash result event (act a s)
  unfolding act begin complete complete_audit complete_cached_audit fail_audit abort
  act-Stored key hash name result event (begins k h e l) s n held = grind (arith, eq_iff, get-put)
  act-Stored key hash name result event (completes k h r a l) s n held =
      grind (arith, eq_iff, get-put)
  act-Stored key hash name result event (completes_audit m k h l) s n held =
      grind (arith, eq_iff, get-put)
  act-Stored key hash name result event (completes_cached_audit k h l) s n held =
      grind (arith, eq_iff, get-put)
  act-Stored key hash name result event (fails_audit k h e) s n held = held
  act-Stored key hash name result event (aborts k h e l) s n held =
      grind (arith, eq_iff, get-remove)
  act-Stored key hash name result event restarts s n held = held

  act_all-Stored :
      (key hash : String) (result : R) (event : Option A) (c : Cluster R A E)
      (acts : List (String × Act R A E))
      → All (CompletesNot key) acts
      → HasStored hash result event (Dict.get key c.file)
      → HasStored hash result event (Dict.get key (act_all c acts).file)
  unfolding act_all
  act_all-Stored key hash result event c [] n held = held
  act_all-Stored key hash result event c ((name, a) ∷ acts) n held =
      act_all-Stored key hash result event (step c (name, a)) acts n.1
        (act-Stored key hash name result event a (seen_by name c) n.0 held)

  -- `begin` finds this result.
  abbrev pub Finds : R → FileReservation R A E → Type 0
  Finds result (known v audit) = v ≡ result
  Finds result _ = ⊥

  complete-Stored :
      (key hash : String) (result : R) (audit : Option A) (locking : Locking E) (held : Open)
      (s : Shared R A E)
      → Dict.get key s.process.pending ≡ some held
      → held.payload_hash ≡ hash
      → (complete key hash result audit locking s).0 ≡ none
      → Stored key hash result audit (complete key hash result audit locking s).1
  unfolding complete
  complete-Stored key hash result audit locking held s p h r =
      grind (arith, eq_iff, eq_refl, get-put)

  begin-Finds :
      (key hash : String) (result : R) (event : Option A) (error : R → Option A → Option E)
      (s : Shared R A E)
      → Dict.get key s.process.pending ≡ none
      → error result none ≡ none
      → error result event ≡ none
      → Stored key hash result event s
      → Finds result (begin key hash error replaced s).0
  unfolding begin
  begin-Finds key hash result event error s p bare with_event held = grind (arith, eq_refl)

  -- A result that was completed is found after a restart: a process that has an open reservation
  -- completes it, the call does not throw, and whatever processes do then, but for another completion
  -- of the key. A process that was just started and that can lock the file finds the result, when
  -- `validateCachedEntryForIntent` accepts it, with its event and without.
  pub completed-Finds :
      (key hash name other : String) (result : R) (audit : Option A) (locking : Locking E)
      (held : Open) (error : R → Option A → Option E) (c : Cluster R A E)
      (acts : List (String × Act R A E))
      → Dict.get key (seen_by name c).process.pending ≡ some held
      → held.payload_hash ≡ hash
      → (complete key hash result audit locking (seen_by name c)).0 ≡ none
      → All (CompletesNot key) acts
      → error result none ≡ none
      → error result audit ≡ none
      → Finds result
          (begin key hash error replaced (
            act restarts (
              seen_by other (
                act_all
                  (left_by name c (complete key hash result audit locking (seen_by name c)).1)
                  acts)))).0
  unfolding act
  completed-Finds key hash name other result audit locking held error c acts p h r n bare
        with_event =
      begin-Finds key hash result audit error _ (get-empty key) bare with_event (
        act_all-Stored key hash result audit _ acts n
          (complete-Stored key hash result audit locking held (seen_by name c) p h r))
