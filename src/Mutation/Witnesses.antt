-- ===== src/Mutation/Witnesses.antt =====
-- The properties of the mutation policy at a policy of one file and one directory.
use development_conveyor.Base.{
  String, true, false, none, List, [], ◌∷◌, ◌≡◌, refl, ok, err, sorted_set,
}
use development_conveyor.Transaction.{MutationPolicy}
use development_conveyor.Mutation.{MutationError, unauthorized_mutation, check_policy, validate}
use development_conveyor.Mutation.Refusals.{IsJustified, validate-IsJustified}
use development_conveyor.Mutation.Authorized.{validate_iff}

abbrev policy : MutationPolicy
policy = record {
  allowed_paths = "README.md" ∷ [];
  allowed_prefixes = "docs" ∷ [];
  denied_paths = [];
  denied_prefixes = "docs/control" ∷ [];
  allow_untracked = false;
  require_clean_start = true;
  commit_subject = none;
}

abbrev changed : List String
changed = "docs/a.md" ∷ "README.md" ∷ "docs/a.md" ∷ []

validate-control :
    validate policy ("docs/control/x" ∷ "docs/a" ∷ [])
    ≡ err (MutationError.denied_mutation ("docs/control/x" ∷ []))
unfolding validate
validate-control = refl

validate_iff_example : validate policy changed ≡ ok ("README.md" ∷ "docs/a.md" ∷ [])
unfolding check_policy validate sorted_set
validate_iff_example = (validate_iff policy changed ("README.md" ∷ "docs/a.md" ∷ [])).1 (refl, refl)

validate-IsJustified_example :
    IsJustified policy ("src/a.py" ∷ []) (unauthorized_mutation ("src/a.py" ∷ []))
unfolding check_policy validate
validate-IsJustified_example = validate-IsJustified policy ("src/a.py" ∷ []) refl
