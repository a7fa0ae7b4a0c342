-- ===== src/Retries.antt =====
-- `RetryBudget` of src/development_conveyor/retries.py.
use development_conveyor.Base.{
  ℕ, ◌+◌, String, Bool, true, false, not, ◌&&◌, ◌||◌, Option, none, some, List, [], ◌∷◌, ◌++◌, ◌==◌,
  string_eq, leb, length, any, is_blank, Result, ok, err, guard, ◌>>=◌, ◌>>◌, if◌then◌else◌,
}
use Prim.Native.Nat.{◌-◌}
use development_conveyor.Json.{ℤ, pos, negsuc}
pub mod Spent
mod Witnesses

-- What `_normalize` and `record` take from Python's texts and regular expressions:
-- `" ".join(text.lower().split())`, the two calls of `re.sub`, and `" ".join(parts)`.
pub record Texts : Type 0 where
  pub lower_words : String → String
  pub mask_timestamps : String → String
  pub mask_repairs : String → String
  pub join : List String → String

pub data RetryError : Type 0 where
  incomplete_retry repeated_retry limit_exhausted : RetryError

pub record Signature : Type 0 where
  pub failure_classification : String
  pub command : String
  pub session_id : String
  pub model : String
  pub reasoning : String
  pub remediation_action : String

pub record Attempt : Type 0 where
  pub hypothesis : String
  pub normalized_hypothesis : String
  pub normalized_signature : Signature
  pub evidence : String
  pub remediation_action : String

pub record RetryBudget : Type 0 where
  pub limit : ℤ
  pub attempts : List Attempt

-- The arguments of `record`.
pub record Retry : Type 0 where
  pub hypothesis : String
  pub evidence : String
  pub failure_classification : String
  pub command : List String
  pub session_id : Option String
  pub model : Option String
  pub reasoning : Option String
  pub remediation_action : Option String

-- `value or ""`
abbrev pub or_empty : Option String → String
or_empty none = ""
or_empty (some s) = s

abbrev pub same_signature : Signature → Signature → Bool
same_signature a b =
    a.failure_classification == b.failure_classification
    && a.command == b.command
    && a.session_id == b.session_id
    && a.model == b.model
    && a.reasoning == b.reasoning
    && a.remediation_action == b.remediation_action

-- `len(self.attempts) >= self.limit`
abbrev pub reaches : ℤ → ℕ → Bool
reaches (pos n) k = leb n k
reaches (negsuc n) k = true

-- `max(0, self.limit - len(self.attempts))`
abbrev pub remaining : RetryBudget → ℕ
remaining b = elim b.limit [ pos n ↦ n - length b.attempts | negsuc n ↦ 0 ]

abbrev pub complete : Retry → Bool
complete q =
    not (is_blank q.hypothesis || is_blank q.evidence || is_blank (or_empty q.remediation_action))

module _ (texts : Texts) where
  -- `_normalize`
  abbrev pub normalize : String → String
  normalize s = texts.mask_repairs (texts.mask_timestamps (texts.lower_words s))

  abbrev pub signature_of : Retry → Signature
  signature_of q = record {
    failure_classification = normalize q.failure_classification;
    command = normalize (texts.join q.command);
    session_id = normalize (or_empty q.session_id);
    model = normalize (or_empty q.model);
    reasoning = normalize (or_empty q.reasoning);
    remediation_action = normalize (or_empty q.remediation_action);
  }

  abbrev pub attempt_of : Retry → Attempt
  attempt_of q = record {
    hypothesis = q.hypothesis;
    normalized_hypothesis = normalize q.hypothesis;
    normalized_signature = signature_of q;
    evidence = q.evidence;
    remediation_action = or_empty q.remediation_action;
  }

  abbrev pub repeats : Attempt → Attempt → Bool
  repeats new old =
      old.normalized_hypothesis == new.normalized_hypothesis
      || same_signature old.normalized_signature new.normalized_signature

  abbrev pub check_retry : Retry → RetryBudget → Result RetryError Unit
  check_retry q b = do
    guard (complete q) incomplete_retry
    guard (not (any (repeats (attempt_of q)) b.attempts)) repeated_retry
    guard (not (reaches b.limit (length b.attempts))) limit_exhausted

  abbrev pub appended :
      Retry → RetryBudget → Result RetryError Unit → Result RetryError ℕ × RetryBudget
  appended q b (err e) = (err e, b)
  appended q b (ok done) =
      let grown = b.attempts ++ attempt_of q ∷ [] in
      (ok (length grown), record b { attempts = grown })

  -- `record`
  unfoldable pub record_retry : Retry → RetryBudget → Result RetryError ℕ × RetryBudget
  record_retry q b = appended q b (check_retry q b)
