-- ===== src/Oracle.antt =====
-- scripts/oracle.ts: the delivery graph and what is known of each of its nodes.
pub mod Graph
pub mod Resolve
