-- ===== src/Tests.antt =====
-- The theorems at concrete inputs.
mod Reload
mod Registry
mod Program
mod Configuration
mod Requests
mod ErrorValues
mod Containers
mod Servers
mod Lifetime
mod Measured
