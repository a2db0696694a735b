-- ===== src/Handlers/Validate/Proxied.antt =====
-- handlers/server.go, handleValidate, and handlers/adminauth.go: what the headers of a proxy can change.
use xal_tor_ka.Base.{String, ◌≡◌, false}
use xal_tor_ka.Handlers.Net.{NetLib, Request, peer_ip, ip_in_cidrs}
use xal_tor_ka.Handlers.Server.{Server}

-- The request with other headers X-Real-IP and X-Forwarded-For.
abbrev pub claiming : String → String → Request → Request
claiming real forwarded r = record r { x_real_ip = real; x_forwarded_for = forwarded }

module _ (net : NetLib) (r : Request) (s : Server) where
  -- The peer is none of the trusted proxies.
  abbrev pub Untrusted : Type 0
  Untrusted = ip_in_cidrs net (peer_ip net r) s.cfg.server.trusted_proxies ≡ false
