-- ===== src/Config.antt =====
-- configs/viper.go and configs/fx.go: the configuration file, which may be missing.
use test_lintaspay_backend.Common.{String, List, [], ◌∷◌}
use test_lintaspay_backend.Errors.{GoError, wrapped}
use test_lintaspay_backend.External.{Result, ok, err}

-- What viper's `ReadInConfig` returns: nil, `ConfigFileNotFoundError`, or another error.
pub data ReadOutcome : Type 0 where
  loaded file_not_found : ReadOutcome
  failed : GoError → ReadOutcome

-- viper: the configuration after an attempt to read a file with this name and type in these
-- folders, environment variables included, and how the attempt ended.
module _ {Viper : Type 0}
    (read_in_config : String → String → List String → Viper × ReadOutcome) where
  abbrev tolerate : Viper × ReadOutcome → Result Viper
  tolerate (config, loaded) = ok config
  tolerate (config, file_not_found) = ok config
  tolerate (config, failed e) = err (wrapped "error reading config viper file" e)

  unfoldable pub new_viper : String → String → List String → Result Viper
  new_viper filename filetype paths = tolerate (read_in_config filename filetype paths)

  unfoldable pub new_viper_from_env : Result Viper
  unfolding new_viper
  new_viper_from_env = new_viper ".env" "env" ("." ∷ "../../" ∷ [])
