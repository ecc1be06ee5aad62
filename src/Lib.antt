-- ===== src/Lib.antt =====
-- The web client of teletrace (web/src): the search page, which keeps filters, a time frame and a
-- sort order in one store and queries spans with them, and the trace page, which draws the spans
-- of a trace as a graph of services and as a timeline, both with the span that is selected.
--
-- The parts, and the files here that model them:
-- - Base: the JavaScript array and Map operations that the source uses (find, findIndex, splice,
--   property maps), over lists, and lemmas on them.
-- - Numbers: JavaScript's numbers as the source uses them (truthiness, NaN, text, comparison), a
--   parameter; Numbers/Sample is an instance of it for the tests.
-- - Format: utils/format.ts, durations and time stamps. Times are exact natural numbers: for the
--   time stamps in nanoseconds that the store holds, rounding of doubles is not modelled. Where a
--   duration is printed, the rounding of a quotient of doubles is a parameter.
-- - Search: features/search/types, the records that the search page exchanges.
-- - Store: features/search/stores/spanSearchStore.ts. State is the whole zustand state; `set` with
--   its merge is a record with a law (State), and so is immer's `produce` (Filters), whose drafts
--   carry an identity, since a recipe writes through a reference to an item that it has removed.
--   Slices has one function per action; Filters/Refine gives what the recipes do to plain lists,
--   Slices/Run the actions as steps and what the filters are after them.
-- - FilterBuilder: features/search/components/FilterBuilder/FilterBuilder.tsx, the dialog that
--   makes a filter. Value converts the value, Form has the state and the handlers, Submit what a
--   submission is, Edit the effect of a submission on the store.
-- - TagValues: features/search/api/tagValues.ts, where the values of a tag in the time frame and
--   of all time are merged, and the options of AutoCompleteValueSelector.tsx. The backend and the
--   comparison of two values are parameters. An object's properties stand in the order in which
--   they were set; JavaScript puts those named by an array index first, which matters to the sort
--   for no two values of different count.
-- - TagSelector: the checkboxes of the sidebar, components/CheckboxList/CheckboxList.tsx and
--   features/search/components/TagValuesSelector/TagValuesSelector.tsx, over the store.
-- - Slider: features/search/components/NumericTagSlider/NumericTagSlider.tsx, over the store.
--   Handlers take the state of the rendering that they belong to where that matters (`seen`).
-- - FilterChip: the label in features/search/components/FilterChip/FilterChip.tsx; the length and the
--   cutting of JavaScript's texts are a parameter.
-- - Table: features/search/components/SpanTable and features/search/api/spanQuery.ts, the rows, the
--   sorting and the requests; the backend and date-fns are parameters. Texts is a set of texts.
-- - TimeFrame: the time frame buttons, the date dialog, the refresh button, the live switch and the
--   effect of SpanSearch.tsx, over the store; JavaScript's Date is a parameter (Calendar), and each
--   reading of the clock an argument.
-- - Trace: types/span.ts, and the resource type of a span.
-- - Graph: features/trace/components/TraceGraph. Layout makes nodes and edges of spans, Nodes and
--   Edges say what they are, Placement takes positions from elkjs (a parameter), Style and View
--   are the canvas and its events, with the selection of TraceView.tsx that they share. What
--   reactflow says of connected edges is a record with a law, and its own changes of the nodes and
--   edges are events with any outcome that keeps the nodes' ids and data.
-- - Timeline: features/trace/components/TraceTimeline, code that came from Jaeger UI. Tree is
--   TreeNode.js. SpanTree and Transform are utils/trace.js, the tree of the ids and the loop and
--   the walk of transformTraceData. Rows is the rows of VirtualizedTraceView/index.js with the
--   state of TraceTimeline.js, Positions ListView/Positions.js, and ListView the rows that
--   ListView/index.js draws, how they are measured (Measure) and when the list looks at its
--   position (Schedule). Scroll is utils/ScrollManager.js, up to the index that is scrolled to: the
--   source then calls a method that does not exist. Colors, Dragging and Tween are
--   utils/color-generator.js, DraggableManager.js and Tween.js. Rows takes the spans in the order
--   of a walk, and Positions takes the heights from a function, as the source does. ViewRange is
--   the range of the view: TimelineViewer.js with its keys, the minimap
--   (TracePageHeader/SpanGraph/ViewingLayer) and the header (TimelineViewingLayer.js), over
--   Dragging; Resizer is TimelineColumnResizer.js. Positions in a range are billionths, rounded
--   down, where the source has doubles, so what is said of positions is exact here, where the
--   doubles have errors of rounding; lodash's `clamp` is a parameter with a law.
-- - Details: features/trace/components/SpanDetailsList, the order of a node's spans, the one that is
--   expanded, and the message of an error.
--
-- A TypeError is none. The timeline has loops on fuel: a walk needs one round for each node, a
-- tree as many levels as there are spans, and finding a row one round more than there are rows,
-- for the heights and for the bisection alike. Scrolling to a span needs one round more than there
-- are spans, and the walk over a span's parents one more than it has ancestors. Every other loop
-- of the source goes over a list.
-- Not modelled: scrolling of the page, rendering and styles, the queries of react-query and axios,
-- the debouncing of typed text, and the Go services behind the API.
pub mod Base
pub mod Numbers
pub mod Format
pub mod Search
pub mod Store
pub mod Trace
pub mod Graph
pub mod Details
pub mod FilterBuilder
pub mod FilterChip
pub mod Slider
pub mod Table
pub mod TagSelector
pub mod TagValues
pub mod Texts
pub mod TimeFrame
pub mod Timeline
