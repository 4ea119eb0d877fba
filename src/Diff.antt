-- ===== src/Diff.antt =====
-- internal/shared/diff.go: the preview that the apply screen shows and that HasPendingChanges
-- asks.
pub mod Delta
pub mod PortDeltas
pub mod SetDeltas
pub mod Once
pub mod Ports
pub mod Sets
pub mod Pending
use easywall.Prelude.{Bool, not, Option, none, some, List, ◌++◌, is_nil}
use easywall.Rules.{Rules}
use easywall.Store.{Io, Store, get_state}
unfoldable pub use Delta.*
unfoldable pub use PortDeltas.*
unfoldable pub use SetDeltas.*

-- DiffRules
unfoldable pub diff_rules : Rules → Rules → List RuleDelta
unfolding diff_ports diff_list diff_feeds diff_forwarding diff_custom
diff_rules current staged =
    diff_ports tcp current.tcp staged.tcp
    ++ (diff_ports udp current.udp staged.udp
        ++ (diff_list blocklist current.blocklist staged.blocklist
            ++ (diff_list allowlist current.allowlist staged.allowlist
                ++ (diff_feeds current.feeds staged.feeds
                    ++ (diff_forwarding current.forwarding staged.forwarding
                        ++ diff_custom current.custom staged.custom)))))

-- RulesStore.HasPendingChanges
unfoldable pub has_pending_changes : Io → Store → Option Bool
unfolding get_state
has_pending_changes io s = elim (get_state io s) [
  | none ↦ none
  | some state ↦ some (not (is_nil (diff_rules state.current state.staged)))
]
