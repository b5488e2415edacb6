-- ===== src/Schema/Spec.antt =====
-- The node types of schema/schema.go. Go's *int is an Option; the raw JSON of a section is not kept.
use spexmachina.Prelude.{String, ℕ, List, Option}

pub record Section : Type 0 where
  pub id : String
  pub name : String
  pub type : String

pub record Module : Type 0 where
  pub id : String
  pub name : String
  pub path : String
  pub description : String
  pub requires_module : List String

pub record Requirement : Type 0 where
  pub id : String
  pub preq_id : String
  pub type : String
  pub title : String
  pub description : String
  pub priority : Option ℕ
  pub depends_on : List String
  pub derivation : String

pub record Project : Type 0 where
  pub name : String
  pub description : String
  pub version : String
  pub requirements : List Requirement
  pub modules : List Module
  pub sections : List Section
  pub spec_version : Option ℕ

pub record ModuleRequirement : Type 0 where
  pub id : String
  pub preq_id : String
  pub type : String
  pub title : String
  pub description : String
  pub depends_on : List String

pub record TestSection : Type 0 where
  pub id : String
  pub name : String
  pub content : String
  pub describes : List String

pub record Component : Type 0 where
  pub id : String
  pub name : String
  pub description : String
  pub content : String
  pub implements : List String
  pub uses : List String

pub record Api : Type 0 where
  pub id : String
  pub name : String
  pub description : String
  pub provided_by : List String
  pub group : String

pub record DataFlow : Type 0 where
  pub id : String
  pub name : String
  pub description : String
  pub content : String
  pub uses : List String

pub record ModuleSpec : Type 0 where
  pub name : String
  pub description : String
  pub requirements : List ModuleRequirement
  pub components : List Component
  pub data_flows : List DataFlow
  pub test_sections : List TestSection
  pub apis : List Api
