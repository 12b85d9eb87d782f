-- ===== src/Dhcp.antt =====
-- opsiconfd/dhcpd.py: the blocks of dhcpd.conf, the parameters that a block inherits, and the block that
-- is made for a host. The lines of the file on which the components stand are left out.
pub mod Blocks
pub mod Hosts
pub mod Inherited
pub mod Kept
pub mod Removed
pub mod Modify
pub mod Replaced
pub mod Samples
