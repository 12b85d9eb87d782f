-- ===== src/Messagebus.antt =====
-- The message bus: opsiconfd/messagebus/websocket.py with the readers of opsiconfd/messagebus/redis.py
-- and the names of channels of opsiconfd/messagebus/__init__.py.
pub mod Names
pub mod Data
pub mod Readers
pub mod Access
pub mod Unsubscribe
pub mod Removal
pub mod Subscribe
pub mod Receive
pub mod Connect
pub mod Samples
