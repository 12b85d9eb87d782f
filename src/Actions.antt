-- ===== src/Actions.antt =====
-- opsiconfd/backend/rpc/obj_product_dependency.py: which product actions a client runs, in which
-- order.
pub mod Data
pub mod Group
pub mod Partition
pub mod Error
pub mod Walk
pub mod Plan
pub mod Numbers
mod Samples
