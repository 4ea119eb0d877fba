-- ===== src/Nftables/Options.antt =====
-- FirewallOptions of internal/shared/models.go.
use easywall.Prelude.{Bool}
use easywall.Text.{ℤ}

pub record Options : Type 0 where
  pub ssh_brute_force : Bool
  pub ssh_brute_force_log : Bool
  pub ssh_brute_force_connection_limit : ℤ
  pub ssh_brute_force_log_limit : ℤ
  pub icmp_allow_echo_request : Bool
  pub icmp_flood : Bool
  pub icmp_flood_log : Bool
  pub icmp_flood_connection_limit : ℤ
  pub icmp_flood_log_limit : ℤ
  pub syn_flood : Bool
  pub syn_flood_log : Bool
  pub syn_flood_limit : ℤ
  pub port_scan : Bool
  pub port_scan_log : Bool
  pub invalid_packets : Bool
  pub invalid_packets_log : Bool
  pub fragments : Bool
  pub fragments_log : Bool
  pub bogons : Bool
  pub bogons_log : Bool
  pub connection_limit : Bool
  pub connection_limit_max : ℤ
  pub tcp_rst_flood : Bool
  pub tcp_rst_flood_log : Bool
  pub tcp_rst_flood_limit : ℤ
  pub drop_broadcast : Bool
  pub drop_multicast : Bool
  pub drop_anycast : Bool
  pub log_blocked : Bool
  pub log_blocked_limit : ℤ
  pub log_blocklist : Bool
  pub log_blocklist_limit : ℤ
  pub log_feed : Bool
  pub log_feed_limit : ℤ
