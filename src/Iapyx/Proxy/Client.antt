-- ===== src/Iapyx/Proxy/Client.antt =====
-- iapyx/src/backend/proxy/client.rs: the client that fetches block 0 through the proxy.
use vit_testing.Prelude.{Bool, true, false, ◌∷◌, ◌++◌}
use vit_testing.Prelude.Text.{Text, codes}

pub record ProxyClient : Type 0 where
  pub address : Text
  pub debug : Bool

unfoldable pub new : Text → ProxyClient
new address = record { address = address; debug = false }

unfoldable pub enable_debug : ProxyClient → ProxyClient
enable_debug c = record c { debug = true }

unfoldable pub disable_debug : ProxyClient → ProxyClient
disable_debug c = record c { debug = false }

-- `{address}/{path}`
unfoldable pub path : ProxyClient → Text → Text
path c p = c.address ++ (b'/' ∷ p)

unfoldable pub block0_path : ProxyClient → Text
unfolding path
block0_path c = path c (codes "api/v0/block0")
