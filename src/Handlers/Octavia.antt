-- ===== src/Handlers/Octavia.antt =====
-- handlers/octavia: the handler of load balancers.
pub mod Create
pub mod LoadBalancer
