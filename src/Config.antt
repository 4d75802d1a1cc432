-- ===== src/Config.antt =====
-- The expansion of environment variables in the text of the configuration: `expand_env_vars` of
-- src/config.rs. `env` is the environment, with `none` for a variable that is not set or no string.
-- The loop takes fuel; `none` is that it ran out.
pub mod Expand
use agent_locksmith.Prelude.{
  ℕ, zero, suc, ◌≡◌, ◌&&◌, Option, none, some, [], ◌∷◌, ◌++◌, eqb, unwrap_or, if◌then◌else◌,
}
use agent_locksmith.Text.{Text, split_once}

abbrev pub behind : ℕ → Option (Text × Text) → Option (Text × Text)
behind c none = none
behind c (some (a, b)) = some (c ∷ a, b)

-- `find("${")`: what stands before the first `${`, and what after it
unfoldable pub find_open : Text → Option (Text × Text)
find_open [] = none
find_open (c ∷ []) = none
find_open (c ∷ d ∷ s) =
    if eqb c b'$' && eqb d b'{' then some ([], s) else behind c (find_open (d ∷ s))

-- what a round of the loop does: it leaves the text or puts a value in
pub data Round : Type 0 where
  done : Round
  again : Text → Round

module _ (env : Text → Option Text) where
  abbrev pub closed : Text → Option (Text × Text) → Round
  closed before none = done
  closed before (some (name, after)) = again (before ++ (unwrap_or (env name) [] ++ after))

  abbrev pub opened : Option (Text × Text) → Round
  opened none = done
  opened (some (before, rest)) = closed before (split_once b'}' rest)

  unfoldable pub expand_round : Text → Round
  expand_round input = opened (find_open input)

  abbrev pub next : Text → Round → (Text → Option Text) → Option Text
  next result done rest = some result
  next result (again result') rest = rest result'

  unfoldable pub expand_env_vars : ℕ → Text → Option Text
  expand_env_vars zero result = none
  expand_env_vars (suc fuel) result = next result (expand_round result) (expand_env_vars fuel)
