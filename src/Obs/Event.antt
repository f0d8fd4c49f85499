-- ===== src/Obs/Event.antt =====
-- engine/crates/gravital-obs/src/event.rs and layer.rs: the fields of an event. The time, the trace
-- and the span of a new event are parameters, and so is serde's text of a payload.
use gravital_share.Common.{ℕ, List, Option, none, some, ℕ_discrete}
use mathlib.Core.Logic.{ite}
use gravital_share.Common.Assoc
use gravital_share.Common.Text.{codes}

pub data Level : Type 0 where
  trace debug info warn error : Level

abbrev pub as_str : Level → List ℕ
as_str trace = codes "trace"
as_str debug = codes "debug"
as_str info = codes "info"
as_str warn = codes "warn"
as_str error = codes "error"

pub record GsEvent (P : Type 0) : Type 0 where
  pub ts : List ℕ
  pub schema : List ℕ
  pub lvl : Level
  pub kind : List ℕ
  pub trace_id : List ℕ
  pub span_id : List ℕ
  pub module_name : List ℕ
  pub payload : P

-- The clock and the two identifiers that a new event takes.
pub record Fresh : Type 0 where
  pub now : List ℕ
  pub ulid : List ℕ
  pub span : List ℕ

unfoldable pub new_event : {P : Type 0} → Fresh → Level → List ℕ → List ℕ → P → GsEvent P
new_event fresh lvl kind module_name payload = record {
  ts = fresh.now;
  schema = codes "gs.event.v1";
  lvl = lvl;
  kind = kind;
  trace_id = fresh.ulid;
  span_id = fresh.span;
  module_name = module_name;
  payload = payload;
}

unfoldable pub with_trace : {P : Type 0} → GsEvent P → List ℕ → GsEvent P
with_trace e trace_id = record e { trace_id = trace_id }

-- The visitor of the tracing layer.
pub record FieldVisitor : Type 0 where
  pub kind : Option (List ℕ)
  pub fields : List (List ℕ × List ℕ)

pub name-discrete : Discrete (List ℕ)
name-discrete = hlevel ℕ_discrete

unfoldable pub record_str : FieldVisitor → List ℕ → List ℕ → FieldVisitor
record_str v name value =
    ite (name-discrete name (codes "kind")) (record v { kind = some value })
      (record v { fields = Assoc.insert name-discrete v.fields name value })

-- `value` is the `{:?}` text.
unfoldable pub record_debug : FieldVisitor → List ℕ → List ℕ → FieldVisitor
record_debug v name value = record v { fields = Assoc.insert name-discrete v.fields name value }

-- The event of the layer, from the metadata's level, name and module.
unfoldable pub on_event :
    Fresh → Level → List ℕ → Option (List ℕ) → FieldVisitor → GsEvent (List (List ℕ × List ℕ))
on_event fresh lvl name module_path v =
    new_event fresh lvl (elim v.kind [ none ↦ name | some k ↦ k ])
      (elim module_path [ none ↦ codes "unknown" | some m ↦ m ]) v.fields
