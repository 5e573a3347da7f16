-- ===== src/UseCase/Limits.antt =====
-- usecases/api: the limits that use cases give to an application. (LoadLimit and LoadLimitsPhase of
-- types.go)
use eebus_go.Prelude.{Bool}
use eebus_go.Prelude.Int.{ℤ}
use eebus_go.Spine.{Name}

-- ucapi.LoadLimit
pub record LoadLimit : Type 0 where
  pub duration : ℤ
  pub is_changeable : Bool
  pub is_active : Bool
  pub value : ℤ
  pub delete_duration : Bool

-- ucapi.LoadLimitsPhase
pub record LoadLimitsPhase : Type 0 where
  pub phase : Name
  pub is_changeable : Bool
  pub is_active : Bool
  pub value : ℤ
