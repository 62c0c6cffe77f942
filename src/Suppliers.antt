-- ===== src/Suppliers.antt =====
-- arcanium/api/src/suppliers: tenants and their namespaces.
pub mod Isolation
