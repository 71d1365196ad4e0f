-- ===== src/Controller/Nodes.antt =====
-- internal/controller: node_management.go, route_management.go and the node and route handlers of
-- admin_handlers.go, embedded_agent.go and upstreams.go. Each definition is what the handler's
-- `store.Update` does to the state; an error throws the changes away.
pub mod Bumps
pub mod Removal
pub mod Handlers
pub mod Switches
pub mod Routes
pub mod Rooted
pub mod Integrity
pub mod Deletions
pub mod Changes
pub mod Whole
pub mod Attached
pub mod Switched
pub mod Edits
pub mod Unpublished
mod Tests
