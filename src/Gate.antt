-- ===== src/Gate.antt =====
-- src/service/gate/gateuser: the users of a gate server, and the manager that holds them.
pub mod User
pub mod Users
mod GateTests
