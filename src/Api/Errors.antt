-- ===== src/Api/Errors.antt =====
-- The errors that the program makes or passes on, and Go's pair of a value and an error.
use kata_operator.Base.{String, Bool, true, false}

pub data Error : Type 0 where
  not_found : Error  -- what errors.IsNotFound recognises
  api : String → Error  -- any other error of a call outside the program
  list_pods_failed : Error → Error
  list_kata_configs_failed : Error → Error
  existing_kata_pods : Error
  no_suitable_nodes : Error
  parent_pool_not_found : String → Error
  source_image_missing : Error
  not_implemented : Error
  status_update_failed : String → Error → Error  -- the daemon's message, and the cause

abbrev pub is_not_found : Error → Bool
is_not_found not_found = true
is_not_found _ = false

-- A value, or an error that is not nil.
pub data Result {ℓ} (A : Type ℓ) : Type ℓ where
  ok : A → Result A
  err : Error → Result A

pub ruleset result_constructors = (ok, err)
