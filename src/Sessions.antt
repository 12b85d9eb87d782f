-- ===== src/Sessions.antt =====
-- opsiconfd/session.py: the sessions of clients, who may log in, and what a request may do.
pub mod Data
pub mod Samples
pub mod World
pub mod Wire
pub mod Store
pub mod Start
pub mod Manager
pub mod Checks
pub mod HostLogin
pub mod Login
pub mod Headers
pub mod Request
pub mod Failure
