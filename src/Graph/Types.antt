-- ===== src/Graph/Types.antt =====
-- web/src/features/trace/components/TraceGraph/types.ts and utils/global.ts, with what the code
-- uses of reactflow's nodes and edges.
use teletrace.Base.{ℕ, Bool, Option, List, String}
use teletrace.Trace.Span.{InternalSpan}

pub record GraphNodeData : Type 0 where
  pub id : String
  pub name : String
  pub image : String
  pub type : String

pub record GraphNode (N : Type 0) : Type 0 where
  pub id : String
  pub service_name : String
  pub system_type : String
  pub image : String
  pub has_error : Bool
  pub spans : List (InternalSpan N)

pub data EdgeColor : Type 0 where
  normal hover selected error err_selected err_hover : EdgeColor

pub data NodeColor : Type 0 where
  normal hover selected error err_selected err_hover : NodeColor

unfoldable pub edge_color : EdgeColor → String
edge_color normal = "#96979E"
edge_color hover = "#FFFFFF"
edge_color selected = "#00CDE7"
edge_color error = "#EF5854"
edge_color err_selected = "#EF5854"
edge_color err_hover = "#F47874"

unfoldable pub node_color : NodeColor → String
node_color normal = "#96979E"
node_color hover = "#FFFFFF"
node_color selected = "#009EB4"
node_color error = "#EF5854"
node_color err_selected = "#EF5854"
node_color err_hover = "#B52D29"

pub record EdgeData : Type 0 where
  pub count : ℕ
  pub has_error : Bool

pub record NodeData (N : Type 0) : Type 0 where
  pub id : String
  pub name : String
  pub type : String
  pub image : String
  pub color : NodeColor
  pub graph_node : GraphNode N

-- A point of the canvas; `none` is the constant `POSITION`, the origin.
abbrev pub Position : Type 0 → Type 0
Position N = Option (N × N)

-- reactflow's `Node<NodeData>`.
pub record Node (N : Type 0) : Type 0 where
  pub id : String
  pub type : String
  pub content : NodeData N
  pub position : Position N
  pub selected : Bool

pub record MarkerEnd : Type 0 where
  pub width : ℕ
  pub height : ℕ
  pub color : EdgeColor

pub record EdgeStyle : Type 0 where
  pub stroke : EdgeColor
  pub padding : ℕ
  pub cursor : String

-- reactflow's `Edge<EdgeData>`; the data, the marker and the style are optional there.
pub record Edge : Type 0 where
  pub id : String
  pub type : String
  pub source : String
  pub target : String
  pub content : Option EdgeData
  pub style : Option EdgeStyle
  pub marker_end : Option MarkerEnd
  pub animated : Bool
  pub selected : Bool

abbrev pub basic_node_type : String
basic_node_type = "basicNode"

abbrev pub basic_edge_type : String
basic_edge_type = "basicEdge"

abbrev pub default_node_width : ℕ
default_node_width = 300

abbrev pub default_node_height : ℕ
default_node_height = 250

abbrev pub edge_arrow_size : ℕ
edge_arrow_size = 20
