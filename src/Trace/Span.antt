-- ===== src/Trace/Span.antt =====
-- web/src/types/span.ts. `N` is the type of JavaScript's numbers.
use teletrace.Base.{ℕ, Bool, Option, List, String, true, false}

pub data AttributeValue (N : Type 0) : Type 0 where
  number : N → AttributeValue N
  text : String → AttributeValue N
  boolean : Bool → AttributeValue N

-- `Record<AttributeKey, AttributeValue>`: the entries, of which the first with a key counts.
abbrev pub Attributes : Type 0 → Type 0
Attributes N = List (String × AttributeValue N)

pub record Resource (N : Type 0) : Type 0 where
  pub attributes : Attributes N
  pub dropped_attributes_count : ℕ

pub record Scope (N : Type 0) : Type 0 where
  pub name : String
  pub version : String
  pub attributes : Attributes N
  pub dropped_attributes_count : ℕ

pub data StatusCode : Type 0 where
  unset ok error : StatusCode

pub record SpanStatus : Type 0 where
  pub message : String
  pub code : StatusCode

pub record Event (N : Type 0) : Type 0 where
  pub time_unix_nano : ℕ
  pub name : String
  pub attributes : Attributes N
  pub dropped_attributes_count : ℕ

pub record Link (N : Type 0) : Type 0 where
  pub trace_id : String
  pub span_id : String
  pub trace_state : String
  pub attributes : Attributes N
  pub dropped_attributes_count : ℕ

pub data SpanKind : Type 0 where
  unspecified internal server client producer consumer : SpanKind

pub record RawSpan (N : Type 0) : Type 0 where
  pub span_id : String
  pub trace_id : String
  pub parent_span_id : Option String
  pub name : String
  pub kind : SpanKind
  pub status : SpanStatus
  pub start_time_unix_nano : ℕ
  pub end_time_unix_nano : ℕ
  pub trace_state : String
  pub attributes : Attributes N
  pub dropped_attributes_count : ℕ
  pub events : Option (List (Event N))
  pub dropped_events_count : ℕ
  pub links : Option (List (Link N))
  pub dropped_links_count : ℕ

pub record ExternalFields : Type 0 where
  pub duration_nano : ℕ

pub record InternalSpan (N : Type 0) : Type 0 where
  pub span : RawSpan N
  pub scope : Scope N
  pub resource : Resource N
  pub external_fields : ExternalFields

-- `s.span.status.code === StatusCode.Error`.
unfoldable pub is_error : {N : Type 0} → InternalSpan N → Bool
is_error s = elim s.span.status.code [ unset ↦ false | ok ↦ false | error ↦ true ]
