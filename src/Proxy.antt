-- ===== src/Proxy.antt =====
-- The forward proxy between the sandboxed browser and the network:
-- webshotd/src/crawler/egress_proxy.cpp, with `IsPublicRoutable` of webshotd/include/ip.hpp.
pub mod Address
pub mod Upstream
pub mod Request
pub mod Forward
pub mod Budget
pub mod Client
mod Tests
use webshot.Base.{ℕ, Bool, List}
use webshot.Base.Bytes.{Bytes}

pub record EgressProxyConfig : Type 0 where
  pub run_id : Bytes
  pub url_bytes_max : ℕ
  pub down_bytes_max : ℕ
  pub require_auth : Bool
  pub enable_local_fixture_rewrite : Bool
  pub testsuite_loopback_ports : List ℕ
