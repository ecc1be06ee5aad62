-- ===== src/Timeline.antt =====
-- The timeline of a trace (web/src/features/trace/components/TraceTimeline), which the repository
-- took over from Jaeger UI and changed: the trees and rows of spans, and the parts of the view.
mod Tests
pub mod Tree
pub mod Positions
pub mod Rows
pub mod Colors
pub mod Dragging
pub mod ViewRange
pub mod Resizer
pub mod Scroll
pub mod Tween
pub mod Transform
pub mod SpanTree
pub mod ListView
