-- ===== src/Mutation.antt =====
-- Which paths of the repository a transaction may change: `safe_relative_path` and `MutationPolicy`
-- of development_conveyor/contracts.py. The record of the policy stands in Transaction.antt.
use Prim.Native.String.{◌++◌ as text_append}
use development_conveyor.Base.{
  String, Bool, true, false, not, ◌&&◌, ◌||◌, List, [], ◌∷◌, map, ◌==◌, string_eq, if◌then◌else◌,
  Result, ok, err, ◌>>=◌, ◌>>◌, guard, any, contains, select, is_nil, same_texts, sort_by, text_ltb,
  sorted_set, is_safe_path, starts_with, rstrip_slash,
}
use development_conveyor.Transaction.{MutationPolicy}
pub mod Authorized
pub mod Refusals
mod Witnesses

pub data MutationError : Type 0 where
  unsafe_path : String → MutationError
  allowed_paths_not_normalized : MutationError
  allowed_prefixes_not_normalized : MutationError
  denied_paths_not_normalized : MutationError
  denied_prefixes_not_normalized : MutationError
  denied_mutation : List String → MutationError
  unauthorized_mutation : List String → MutationError

unfoldable pub safe_relative_path : String → Result MutationError String
unfolding is_safe_path
safe_relative_path value = guard (is_safe_path value) (unsafe_path value) >> ok value

-- `[safe_relative_path(item) for item in paths]`: the first unsafe one raises.
unfoldable pub safe_paths : List String → Result MutationError (List String)
unfolding safe_relative_path
safe_paths [] = ok []
safe_paths (item ∷ items) = do
  first ← safe_relative_path item
  rest ← safe_paths items
  ok (first ∷ rest)

-- `tuple(sorted(set(safe_relative_path(item) for item in paths)))`
unfoldable pub normalized_paths : List String → Result MutationError (List String)
unfolding safe_paths sorted_set
normalized_paths paths = safe_paths paths >>= λ items. ok (sorted_set items)

-- `MutationPolicy.__post_init__`
unfoldable pub check_policy : MutationPolicy → Result MutationError Unit
unfolding normalized_paths rstrip_slash
check_policy p = do
  normalized ← normalized_paths p.allowed_paths
  guard (same_texts normalized p.allowed_paths) allowed_paths_not_normalized
  prefixes ← normalized_paths (map rstrip_slash p.allowed_prefixes)
  guard (same_texts prefixes p.allowed_prefixes) allowed_prefixes_not_normalized
  denied ← normalized_paths p.denied_paths
  guard (same_texts denied p.denied_paths) denied_paths_not_normalized
  denied_prefixes ← normalized_paths (map rstrip_slash p.denied_prefixes)
  guard (same_texts denied_prefixes p.denied_prefixes) denied_prefixes_not_normalized

-- `path == prefix or path.startswith(prefix + "/")`
abbrev pub is_under : String → String → Bool
is_under path prefix = path == prefix || starts_with (text_append prefix "/") path

abbrev pub is_denied : MutationPolicy → String → Bool
is_denied p path = contains path p.denied_paths || any (is_under path) p.denied_prefixes

abbrev pub is_unauthorized : MutationPolicy → String → Bool
is_unauthorized p path =
    not (contains path p.allowed_paths) && not (any (is_under path) p.allowed_prefixes)

-- `sorted(path for path in paths if test(path))`
unfoldable pub sorted_where : (String → Bool) → List String → List String
unfolding sort_by
sorted_where test paths = sort_by (λ s t. not (text_ltb t s)) (select test paths)

unfoldable pub validate : MutationPolicy → List String → Result MutationError (List String)
unfolding normalized_paths sorted_where
validate p paths = do
  observed ← normalized_paths paths
  let denied = sorted_where (is_denied p) observed
  guard (is_nil denied) (denied_mutation denied)
  let unauthorized = sorted_where (is_unauthorized p) observed
  guard (is_nil unauthorized) (unauthorized_mutation unauthorized)
  ok observed
