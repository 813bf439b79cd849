-- ===== src/Schema/Model.antt =====
-- The data of src/schema_graph.rs. Kinds, defaults and names are the strings that the source stores.
use surql_parser.Prelude.{ℕ, Bool, Option, List, Text, map}
use surql_parser.Prelude.HashMap.{HashMap}

pub record SourceLocation : Type 0 where
  pub file : Text
  pub offset : ℕ
  pub len : ℕ

pub record FieldDef : Type 0 where
  pub name : Text
  pub kind : Option Text
  pub record_links : List Text
  pub default : Option Text
  pub readonly : Bool
  pub comment : Option Text
  pub source : Option SourceLocation

pub record IndexDef : Type 0 where
  pub name : Text
  pub columns : List Text
  pub unique : Bool
  pub comment : Option Text
  pub source : Option SourceLocation

pub record EventDef : Type 0 where
  pub name : Text
  pub comment : Option Text
  pub source : Option SourceLocation

pub record TableDef : Type 0 where
  pub name : Text
  pub full : Bool
  pub table_type : Text
  pub comment : Option Text
  pub fields : List FieldDef
  pub indexes : List IndexDef
  pub events : List EventDef
  pub source : Option SourceLocation
  pub ns : Option Text
  pub db : Option Text

pub record FunctionDef : Type 0 where
  pub name : Text
  pub args : List (Text × Text)
  pub returns : Option Text
  pub comment : Option Text
  pub source : Option SourceLocation

pub record ParamDef : Type 0 where
  pub name : Text
  pub source : Option SourceLocation

pub record SchemaGraph : Type 0 where
  pub tables : HashMap TableDef
  pub functions : HashMap FunctionDef
  pub params : HashMap ParamDef
  -- field name ↦ the tables that have it, with the field's place in each
  pub field_index : HashMap (List (Text × ℕ))

abbrev pub field_names : List FieldDef → List Text
field_names = map (λ f. f.name)

abbrev pub index_names : List IndexDef → List Text
index_names = map (λ i. i.name)

abbrev pub event_names : List EventDef → List Text
event_names = map (λ e. e.name)
