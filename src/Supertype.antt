-- ===== src/Supertype.antt =====
-- The supertype of the branches of an expression: `commonCHType` of internal/engine/supertype.go and
-- the tests it makes. Children: the Decimal and DateTime rules, the rule for a whole list of branches,
-- and what the results have in common.
pub mod Shapes
pub mod Decimals
pub mod Compatible
pub mod Temporal
pub mod Step
pub mod Scalars
pub mod Rule
pub mod Sizes
pub mod Agree
pub mod CompatibleFuel
pub mod Fuel
pub mod Free
pub mod Nullability
