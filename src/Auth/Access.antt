-- ===== src/Auth/Access.antt =====
-- `AccessScope` of src/auth.rs.
use engram_mcp.Common.{Bool, true, false}

pub data AccessScope : Type 0 where
  tech : AccessScope
  private : AccessScope

unfoldable pub allows_private : AccessScope → Bool
allows_private tech = false
allows_private private = true
