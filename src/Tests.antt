-- ===== src/Tests.antt =====
-- Runs of the definitions on concrete inputs, and the properties applied to them.
mod Types
mod Calls
mod Numbers
mod SchemaData
mod Schema
mod Variants
mod Branches
mod Lookups
