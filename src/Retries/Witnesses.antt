-- ===== src/Retries/Witnesses.antt =====
-- The retry budget at a limit of one.
use development_conveyor.Base.{[], ◌∷◌, some, none}
use development_conveyor.Json.{pos}
use development_conveyor.Retries.{Texts, Retry}
use development_conveyor.Retries.Spent.{IsWithin, run, spent_on_new}

abbrev plain : Texts
plain = record {
  lower_words = λ t. t;
  mask_timestamps = λ t. t;
  mask_repairs = λ t. t;
  join = λ parts. "";
}

abbrev retry : Retry
retry = record {
  hypothesis = "h";
  evidence = "e";
  failure_classification = "unknown";
  command = [];
  session_id = none;
  model = none;
  reasoning = none;
  remediation_action = some "r";
}

spent_on_new_example :
    IsWithin plain 1 (run plain (retry ∷ retry ∷ []) (record { limit = pos 1; attempts = [] }))
spent_on_new_example = spent_on_new plain 1 (retry ∷ retry ∷ [])
