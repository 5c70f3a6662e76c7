-- ===== src/Workspace/Reload.antt =====
-- What follows a synchronisation: the reload rules and the decision to restart (`matchReloadRules`,
-- `mergeReloadCommands`, `shouldRestartAfterSync` of dev-agent/main.go).
use provider_infrastructure.Prelude.{
  Bool, true, false, not, ◌&&◌, ◌||◌, List, [], ◌∷◌, ◌++◌, Option, none, some, any, all, reverse,
  ◌==◌, if◌then◌else◌,
}
use provider_infrastructure.Text.{
  Text, codes, text_eq, is_empty, trim_space, to_lower, split, contains_rune,
}
use provider_infrastructure.Command.Path.{has_prefix}
use provider_infrastructure.Workspace.Bundle.{has_path}

-- `reloadRule`
pub record ReloadRule : Type 0 where
  pub paths : List Text
  pub command : Text

abbrev pub is_complete : ReloadRule → Bool
is_complete rule = not (is_nil rule.paths) && not (is_empty (trim_space rule.command))
  where
    is_nil : List Text → Bool
    is_nil [] = true
    is_nil (p ∷ ps) = false

-- `reloadRulesFromEnv`, where `decode` reads the JSON; none where it returns an error.
unfoldable pub reload_rules_from_env :
    (Text → Option (List ReloadRule)) → Text → Option (List ReloadRule)
reload_rules_from_env decode raw =
    if is_empty (trim_space raw) then some [] else elim (decode (trim_space raw)) [
      | none ↦ none
      | some rules ↦ if all is_complete rules then some rules else none
    ]

abbrev pub drop_slashes : Text → Text
drop_slashes [] = []
drop_slashes (c ∷ s) = if c == b'/' then drop_slashes s else c ∷ s

abbrev pub last_part : Text → List Text → Text
last_part part [] = part
last_part part (next ∷ parts) = last_part next parts

-- `path.Base`
unfoldable pub path_base : Text → Text
path_base path =
    if is_empty path
    then codes "."
    else let trimmed = reverse (drop_slashes (reverse path)) in
      if is_empty trimmed then codes "/" else last_part [] (split trimmed b'/')

-- `path.Match` is `matches`, with the pattern first; a bad pattern does not match.
module _ (matches : Text → Text → Bool) where
  -- `matchAny`
  unfoldable pub match_any : Text → List Text → Bool
  unfolding path_base
  match_any pattern changed =
      any
        (λ p.
          matches pattern p || (not (contains_rune pattern b'/') && matches pattern (path_base p)))
        changed

  -- The loop of `matchReloadRules`, with the commands that were seen.
  unfoldable pub match_from : List Text → List ReloadRule → List Text → List Text
  unfolding match_any has_path
  match_from seen [] changed = []
  match_from seen (rule ∷ rules) changed =
      elim (not (has_path rule.command seen) && any (λ p. match_any p changed) rule.paths) [
        | true ↦ rule.command ∷ match_from (rule.command ∷ seen) rules changed
        | false ↦ match_from seen rules changed
      ]

  -- `matchReloadRules`
  unfoldable pub match_reload_rules : List ReloadRule → List Text → List Text
  unfolding match_from
  match_reload_rules rules changed = match_from [] rules changed

-- The loop of `mergeReloadCommands`, with the commands that were seen.
unfoldable pub merge_from : List Text → List Text → List Text
unfolding has_path
merge_from seen [] = []
merge_from seen (raw ∷ raws) = elim (is_empty (trim_space raw) || has_path (trim_space raw) seen) [
  | true ↦ merge_from seen raws
  | false ↦ trim_space raw ∷ merge_from (trim_space raw ∷ seen) raws
]

-- `mergeReloadCommands` of two groups
unfoldable pub merge_reload_commands : List Text → List Text → List Text
unfolding merge_from
merge_reload_commands earlier later = merge_from [] (earlier ++ later)

-- `isStartupAffectingPath`
unfoldable pub is_startup_affecting : Text → Bool
unfolding path_base
is_startup_affecting clean =
    any (text_eq (path_base clean)) (
      codes "package.json"
      ∷ codes "package-lock.json"
      ∷ codes "npm-shrinkwrap.json"
      ∷ codes "yarn.lock"
      ∷ codes "pnpm-lock.yaml"
      ∷ codes "bun.lockb"
      ∷ codes "server.js"
      ∷ [])
    || has_prefix (path_base clean) (codes "vite.config.")

-- What the runtime says of its process.
pub record RuntimeStatus : Type 0 where
  pub configured : Bool
  pub running : Bool

abbrev pub restart_of : Bool → Bool → List Text → Option RuntimeStatus → Option Bool
restart_of fired declared touched none = none
restart_of fired declared touched (some s) = some (
    s.configured
    && (not s.running || (fired || (not declared && any is_startup_affecting touched))))

-- `shouldRestartAfterSync`; none where the runtime's status is an error.
unfoldable pub should_restart_after_sync :
    Option RuntimeStatus → Text → Bool → Bool → List Text → Option Bool
unfolding to_lower is_startup_affecting
should_restart_after_sync status policy fired declared touched =
    if text_eq (to_lower (trim_space policy)) (codes "always")
    then some true
    else if text_eq (to_lower (trim_space policy)) (codes "auto")
    then restart_of fired declared touched status
    else some false
