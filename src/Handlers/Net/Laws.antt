-- ===== src/Handlers/Net/Laws.antt =====
-- handlers/server.go: when the headers of a request say who the client is.
use xal_tor_ka.Base.{
  String, ◌≡◌, refl, ◌≢◌, ◌↔◌, true, false, some, List, In, any→In, In→any, trim_space, ne→false,
}
use xal_tor_ka.Handlers.Net.{NetLib, Request, cidr_holds, ip_in_cidrs, peer_ip, real_ip, client_ip}

module _ (net : NetLib) where
  open net use {Ip, parse_ip, parse_cidr, contains}

  -- An address is covered exactly if one of the texts is a network that holds it.
  pub ip_in_cidrs_iff :
      (ip : Ip) (cidrs : List String)
      → (ip_in_cidrs net (some ip) cidrs ≡ true)
        ↔ ((c : String) × In c cidrs × (cidr_holds net ip c ≡ true))
  unfolding ip_in_cidrs
  ip_in_cidrs_iff ip cidrs = (
    (λ h. any→In (cidr_holds net ip) cidrs h),
    (λ (c, i, q). In→any (cidr_holds net ip) c cidrs i q),
  )

  -- A peer that is no trusted proxy cannot choose its address: whatever the forwarded headers say,
  -- the answer is the peer's own.
  pub client_ip_untrusted :
      (r r' : Request) (trusted : List String)
      → r.remote_addr ≡ r'.remote_addr
      → ip_in_cidrs net (peer_ip net r) trusted ≡ false
      → (client_ip net r trusted ≡ peer_ip net r)
        × (client_ip net r' trusted ≡ client_ip net r trusted)
  unfolding client_ip peer_ip
  client_ip_untrusted r r' trusted e h = (rw h, rw (← e) (rw h refl))

  -- Behind a trusted proxy a valid X-Real-IP decides, whatever X-Forwarded-For says.
  pub client_ip_trusted :
      (r : Request) (trusted : List String) (ip : Ip)
      → ip_in_cidrs net (peer_ip net r) trusted ≡ true
      → trim_space r.x_real_ip ≢ ""
      → parse_ip (trim_space r.x_real_ip) ≡ some ip
      → client_ip net r trusted ≡ some ip
  unfolding client_ip real_ip
  client_ip_trusted r trusted ip h ne e =
      rw h (rw (ne→false (trim_space r.x_real_ip) "" ne) (rw (e, real_ip) refl))
