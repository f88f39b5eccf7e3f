-- ===== src/Auth/Roles.antt =====
-- `require_roles` of app/shared/dependencies.py, for the sets of roles that the handlers name.
use black_soil_loop_server.Prelude.{Bool, true, false, not}
use black_soil_loop_server.Models.{Role, User}
use black_soil_loop_server.Errors.{ErrorCode, error}
use black_soil_loop_server.Tx.{Tx, ⊤, raise_if}

unfoldable pub require_roles : (Role → Bool) → User → Tx ⊤
require_roles allowed user = raise_if (not (allowed user.role)) (error ErrorCode.forbidden 403)

-- `require_roles("park_admin", "enterprise_admin")`
abbrev pub planners : Role → Bool
planners Role.park_admin = true
planners Role.enterprise_admin = true
planners _ = false

-- `require_roles("driver", "park_admin")`
abbrev pub carriers : Role → Bool
carriers Role.driver = true
carriers Role.park_admin = true
carriers _ = false
