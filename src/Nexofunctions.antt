-- ===== src/Nexofunctions.antt =====
-- src/nexolith/nexofunctions, and the checks of names, the registries and the discovery of local
-- definitions, which src/nexolith/nexoactions has in the same form.
pub mod Names
pub mod Registry
pub mod Loader
pub mod Contracts
pub mod Destination
