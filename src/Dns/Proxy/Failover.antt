-- ===== src/Dns/Proxy/Failover.antt =====
-- The choice of the upstream server by dnsd_check_failover of src/dnsd/dnsd.c.
use fastrg_node.Base.{◌+◌, ◌≤◌, ◌≡◌, true, arith, ◌⊎◌}
use fastrg_node.Dns.Cache.{Clock}
use fastrg_node.Dns.Proxy.{Proxy, check_failover, seconds, elapsed}

-- The server in use is one of the two that are configured.
abbrev pub Serves : Proxy → Type 0
Serves state = (state.active_dns ≡ state.primary_dns) ⊎ (state.active_dns ≡ state.secondary_dns)

-- dnsd_check_failover: the state stays as it is, or the proxy is enabled, a secondary server is
-- configured, no response has come for the 60 seconds of the timeout, and the other one of the two servers
-- is in use from now on; the server in use stays one of the two, and only it and the time change.
check_failover-Serves :
    (clock : Clock) (state : Proxy)
    → Serves state
    → Serves (check_failover clock state)
      × ((check_failover clock state ≡ state)
          ⊎ ((state.dns_proxy_enabled ≡ true)
              × (seconds clock 60 ≤ elapsed clock state.last_response_time)
              × ((check_failover clock state).last_response_time ≡ clock.now)
              × ((check_failover clock state).active_dns + state.active_dns
                  ≡ state.primary_dns + state.secondary_dns)
              × ((check_failover clock state).pending ≡ state.pending)))
unfolding check_failover
check_failover-Serves clock state h = ground (arith, h)
