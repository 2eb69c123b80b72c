-- ===== src/Init.antt =====
-- The supervisor of services/init/init.go and its control protocol, guests/lib/initctl.go.
pub mod Supervisor
pub mod Policy
pub mod Conf
mod Tests
