-- ===== src/Query/Parse.antt =====
-- src/query/query_parse.rs and src/query/query.pest: the parser of queries.
pub mod Pairs
pub mod Grammar
pub mod Pratt
pub mod Convert
pub mod Takes
pub mod Fuel
pub mod Print
pub mod Steps
pub mod Words
pub mod Literals
pub mod Values
pub mod Chains
pub mod Operands
pub mod RoundTrip
