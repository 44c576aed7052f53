-- ===== src/Broker/FileStore/Scenarios.antt =====
-- Two processes "a" and "b" on one file, whose results and errors are texts and whose events are
-- numbers.
use agent_trading_guardrails.Base.{ℕ, String, ◌≡◌, ◌≢◌, refl, Option, none, some, List, [], ◌∷◌}
use agent_trading_guardrails.Broker.FileStore.{
  Open, replaced, unchanged_threw, replaced_threw, reserved, begin, complete,
}
use agent_trading_guardrails.Broker.FileStore.Laws.{
  Cluster, Act, begins, aborts, restarts, act, seen_by, left_by, act_all, reserved_for_one, Finds,
  completed-Finds,
}

abbrev TextCluster : Type 0
TextCluster = Cluster String ℕ String

abbrev no_process : TextCluster
no_process = record { processes = []; file = [] }

abbrev accepts : String → Option ℕ → Option String
accepts result event = none

-- "b" asks for the key, "a" dies, "b" asks again on a disk that is full.
abbrev asked_again : List (String × Act String ℕ String)
asked_again =
    ("b", begins "k" "h" accepts replaced)
    ∷ ("a", restarts)
    ∷ ("b", begins "k" "h" accepts (unchanged_threw "full"))
    ∷ []

a_reserved : (begin "k" "h" accepts replaced (seen_by "a" no_process)).0 ≡ reserved
unfolding begin agent_trading_guardrails.Base.Dict.get agent_trading_guardrails.Base.Dict.put
a_reserved = refl

abbrev opened : TextCluster
opened = left_by "a" no_process (begin "k" "h" accepts replaced (seen_by "a" no_process)).1

reserved_for_one_example :
    (begin "k" "h" accepts replaced (seen_by "b" (act_all opened asked_again))).0 ≢ reserved
reserved_for_one_example =
    reserved_for_one "k" "h" "h" "a" "b" accepts accepts replaced replaced no_process asked_again
      a_reserved (tt, (tt, (tt, tt)))

abbrev a_open : Open
a_open = record { payload_hash = "h"; promise = 0 }

a_holds :
    agent_trading_guardrails.Base.Dict.get "k" (seen_by "a" opened).process.pending ≡ some a_open
unfolding begin agent_trading_guardrails.Base.Dict.get agent_trading_guardrails.Base.Dict.put
a_holds = refl

a_completed : (complete "k" "h" "done" (some 7) replaced (seen_by "a" opened)).0 ≡ none
unfolding begin complete agent_trading_guardrails.Base.Dict.get
    agent_trading_guardrails.Base.Dict.put
a_completed = refl

-- "a" dies before its event is written, and "b" takes the key for its own.
abbrev died : List (String × Act String ℕ String)
died =
    ("a", restarts)
    ∷ ("b", aborts "k" "h" "down" replaced)
    ∷ ("b", begins "k" "h" accepts (replaced_threw "sync"))
    ∷ []

completed-Finds_example :
    Finds "done"
      (begin "k" "h" accepts replaced (
        act restarts (
          seen_by "b" (
            act_all
              (left_by "a" opened
                (complete "k" "h" "done" (some 7) replaced (seen_by "a" opened)).1)
              died)))).0
completed-Finds_example =
    completed-Finds "k" "h" "a" "b" "done" (some 7) replaced a_open accepts opened died a_holds refl
      a_completed (tt, (tt, (tt, tt))) refl refl
