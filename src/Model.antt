-- ===== src/Model.antt =====
-- internal/model/types.go: the records that the control plane hands to the rest of the node.
pub mod Value
pub mod NodeSpec
pub mod Clone
pub mod FromPanel
pub mod ToPanel
pub mod RoundTrip
mod Tests
use xboard_node_win.Common.{ℤ, Text}

-- `UserSpec`
pub record UserSpec : Type 0 where
  pub id : ℤ
  pub uuid : Text
  pub speed_limit : ℤ
  pub device_limit : ℤ
