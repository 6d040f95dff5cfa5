-- ===== src/Handlers/Neutron.antt =====
-- handlers/neutron: the handlers of networks, subnets, security groups and routers.
pub mod Network
pub mod Subnet
pub mod SecurityGroup
pub mod Router
pub mod Complete
pub mod Lawful
pub mod SecurityGroupRule
pub mod Port
pub mod FloatingIp
