-- ===== src/Resilience.antt =====
-- yamp/resilience.py: the circuit breaker, and the router that leaves failing backends out.
pub mod Breaker
pub mod Managed
