-- ===== src/Lib.antt =====
-- chgen reads a ClickHouse schema and a set of SQL queries and writes a typed Go package. Its engine
-- infers the ClickHouse type of every result column without a server, and every rule of that
-- inference states what was measured on a server. This library models the parts of the engine that
-- are such rules, and the catalog of tables that the inference reads its column types from.
--
-- The catalog (SchemaCatalogs of internal/engine/catalog.go) is built by applying the statements of
-- the schema files in order: CREATE TABLE, plain, as a copy, or as an external row schema, ALTER,
-- DROP, RENAME and EXCHANGE. Each operation either gives the next catalog or an error, at which the
-- whole load stops.
--
-- A ClickHouse type (CHType of internal/engine/schema.go) is a tree of named nodes. Three wrappers
-- around a type, Nullable, LowCardinality and SimpleAggregateFunction, travel by rules of their own:
-- a function's rule computes a bare result, and the engine moves the wrappers of the arguments to it.
-- Where several branches meet, as in if and in arrays, a supertype is computed.
--
--   Base            Go's strings, maps, slices and error results, as the other files use them
--   ChType          internal/engine/schema.go: CHType; Text, its String
--   Wrappers        internal/engine/arithmetic.go: splitCHWrappers, applyCHWrappers,
--                   canBeInsideNullable; internal/engine/wrapper_transport.go: wrapNullable,
--                   resultRejectsLowCardinality, wrapLowCardinality
--   LowCardinality  internal/engine/arithmetic.go: stripNestedLowCardinality;
--                   internal/engine/supertype.go: unwrapLowCardinality, stripLowCardinalityDeep
--   Transport       internal/engine/wrapper_transport.go: the wrapper stack, splitWrapperStack,
--                   applyWrapperStack, resultStack, applyWrapperTransport, the class transports;
--                   internal/engine/supertype.go: the tests on a SimpleAggregateFunction marker
--   Numeric         internal/engine/supertype.go: numericInfoForType, commonNumericCHType
--   MixedSign       internal/engine/supertype.go: mixedSignIntegerCHTypes
--   Supertype       internal/engine/supertype.go: commonCHType. Its children: Shapes, the tests on one
--                   type and commonWithNullLiteral; Decimals, commonDecimalSupertype with
--                   decimalPrecisionScale of internal/engine/arithmetic.go; Compatible,
--                   compatibleNamedArgTypes of internal/engine/resolver.go; Temporal, the cases of dates
--                   and times; Step, the body of commonCHType, commonSimpleAggregateCHType included; the
--                   others hold proofs
--   Branches        internal/engine/supertype.go: commonCHTypes; DateTimes, dateTimeTimezoneCHTypes;
--                   GreatestLeast, greatestLeastCommonCHTypes; the others hold proofs
--   Containers      internal/engine/supertype.go: arrayFunctionResult, mapFunctionResult and the other
--                   results over containers, resolveSupertypeLattice; Members,
--                   commonContainerMemberCHType, restoreContainerMemberLowCardinality
--   GoType          internal/engine/gotype.go: goType, containsWideInteger; Names,
--                   canonicalCHTypeName of internal/engine/schema.go
--   Arithmetic      internal/engine/arithmetic.go: inferArithmeticResultType; Operands, the tests on one
--                   operand, dateTime64DifferenceType; the others hold proofs
--   Temporal        internal/engine/temporal.go: temporalKindOf, temporalShapeOf,
--                   shapeNeedsScanCheck; the others hold proofs
--   Scopes          internal/engine/resolver.go: queryScope, scopedTable;
--                   internal/engine/supertype.go: lookupTable, lookupScalar, lookupColumn and their
--                   local forms
--   Catalog         internal/engine/schema.go: Table, TableEngine, Column; internal/engine/catalog.go:
--                   SchemaCatalogs. Its children: Statements, the statements as the parser gives them;
--                   Columns, parseColumnDefWithType, parseTableEngine, parseCreateTableWithType of
--                   internal/engine/schema.go; Create, Alter, Change and Run, applyExternalCreate,
--                   applyPhysicalCreate, applyCatalogAlter, applyAlterTable, applyCatalogDrop,
--                   applyCatalogRename, applyCatalogExchange, the statement loop of
--                   applySchemaSource and the file loop of ParseSchemaCatalogs; the others hold proofs
--   Composition     internal/engine/composition.go: compositionVariantCount, selectedTables,
--                   enabledOptions, appendUnique; Merge: mergeQueryVariants
--   Tests           concrete runs
--
-- A composed query (internal/engine/composition.go) has options and table choices, and stands for a
-- bounded number of plain queries, its variants, which are resolved one by one and merged into one
-- function.
--
-- A Go slice is a list, a map an association list, a pointer that may be nil an option, and a pair
-- of a value and an error a result. A list of types is a data type of its own, since a type holds
-- one. strings.EqualFold and strings.ToLower fold the letters of ASCII only, in which type names are
-- written. A set of integer widths that the code only tests with "for all" is a list. A panic is
-- `none`, and a nil dereference an error of its own.
--
-- Fuel: stripLowCardinalityDeep takes the size of the type, commonCHType and compatibleNamedArgTypes
-- the sizes of their two types, which every recursive call lowers,
-- and so does inferArithmeticResultType. Numbers are printed with at most
-- twenty digits, which is what 64 bits have; integer widths take three.
--
-- The branch rule reads its branches in this order: integers of both signs, date times, and then the
-- fold of commonCHType over the list ordered by Decimal, float, other. Containers use the same rule
-- below LowCardinality and put the wrapper back; greatest and least use it for all but one pair.
--
-- A statement of the catalog holds what other functions compute from the parser's tree: the text that
-- catalogExprSQL prints for an expression, the type that parseCHType makes of a column's type, the
-- error of checkQualifiedReferences, and whether the walk over the statement finds a table of the
-- database system.
--
-- A table of the catalog is a value that holds its columns and its engine. In the source it holds a
-- map and a pointer, and ALTER TABLE writes through them in place. The two agree as long as no two names
-- share such a map or pointer: CREATE TABLE makes new ones, CREATE TABLE AS clones those of its source,
-- and RENAME and EXCHANGE move a table. This ownership is read off the source, not proved here: a
-- missing clone could not be expressed.
--
-- Not modelled: the tree of the SQL parser, which is a third-party library, and the walk of the
-- inference over it; reading and writing files; the printing of Go code; the probes that compare the
-- rules with a server.
pub mod Base
pub mod ChType
pub mod Wrappers
pub mod LowCardinality
pub mod Transport
pub mod Numeric
pub mod MixedSign
pub mod Catalog
pub mod Composition
pub mod Supertype
pub mod Branches
pub mod Containers
pub mod GoType
pub mod Scopes
pub mod Arithmetic
pub mod Temporal
pub mod Tests
