-- ===== src/Server.antt =====
-- internal/mcpserver: the tools on top of the sources.
pub mod Outcomes
pub mod Collect
pub mod Window
pub mod Budget
pub mod Compact
pub mod App
mod Tests
