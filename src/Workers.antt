-- ===== src/Workers.antt =====
-- `WorkerManager` of opsiconfd/manager.py: the worker processes of a node. The dict of workers is
-- keyed by the id of each worker, its node and number, and holds the workers of other nodes too.
pub mod Data
pub mod Placed
pub mod Stop
pub mod Pool
pub mod Check
pub mod Reports
pub mod Samples
