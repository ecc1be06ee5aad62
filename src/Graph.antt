-- ===== src/Graph.antt =====
-- web/src/features/trace/components/TraceGraph: the service graph of a trace.
pub mod Types
pub mod Layout
pub mod Nodes
pub mod Edges
pub mod Style
pub mod View
pub mod Placement
mod Tests
