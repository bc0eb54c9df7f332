-- ===== src/Tests/EscalateTests.antt =====
-- One escalation that is sent, and counters and log events of a few keys.
use ezsql.Base.{
  ℕ, ◌≤◌, String, false, Option, none, some, List, [], ◌∷◌, map, ◌≡◌, refl, All, text_length,
  if◌then◌else◌, is_in, string_eq,
}
use ezsql.Base.Dict
use ezsql.Base.Dict.{Dict}
use ezsql.Counters.{get, inc_all, added, redact_processor, redact_keys, get-redact}
use ezsql.Escalate.{Config, Request, escalate, redact_part, request, no_key, sent_bounded}
use ezsql.Tests.Host.{literals}

run : Unit {0}
unfolding escalate get inc_all added Dict.get Dict.set
run = tt

abbrev answers : Request → Option (String × ℕ)
answers r = some ("use an index", 300)

abbrev config : Config
config = record {
  llm_api_key = some "k";
  llm_model = "m";
  llm_timeout_seconds = 30;
  llm_token_budget = 1000;
  max_advisory_chars = 6;
}

abbrev asked : Request
asked = request literals answers ("42" ∷ "name" ∷ []) 500 config

sends : (escalate literals answers [] ("42" ∷ "name" ∷ []) 500 config).sent ≡ some asked
unfolding run
sends = refl

cuts : (escalate literals answers [] [] 500 config).result.advisory_text ≡ some "use an"
unfolding run
cuts = refl

counted : get (escalate literals answers [] [] 500 config).counts "escalation_tokens" ≡ 300
unfolding run
counted = refl

sent_bounded_example :
    (no_key config.llm_api_key ≡ false)
    × (asked.max_tokens ≤ 500)
    × (asked.max_tokens ≤ 1000)
    × (256 ≤ asked.max_tokens)
    × (asked.parts ≡ map (redact_part literals answers 6) ("42" ∷ "name" ∷ []))
    × All (λ part. text_length part ≤ 6) asked.parts
sent_bounded_example = sent_bounded literals answers [] ("42" ∷ "name" ∷ []) 500 config sends

abbrev calls : List (String × ℕ)
calls = ("a", 1) ∷ ("b", 5) ∷ ("a", 2) ∷ []

abbrev event : Dict String String
event = ("event", "start") ∷ ("token", "s3cret") ∷ []

get-redact_example : Dict.get "token" (redact_processor "<redacted>" event) ≡ (
    if is_in "token" redact_keys
    then (if Dict.has "token" event then some "<redacted>" else none)
    else Dict.get "token" event)
get-redact_example = get-redact "<redacted>" event "token"
