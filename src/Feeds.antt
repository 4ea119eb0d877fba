-- ===== src/Feeds.antt =====
-- internal/core/feeds.go and feedstore.go: the copies of the feeds that reach the kernel. The web
-- process downloads and parses, and the core takes nothing of it on trust.
pub mod Prefixes
pub mod Entries
pub mod Ranges
pub mod Store
pub mod Update
