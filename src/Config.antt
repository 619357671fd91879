-- ===== src/Config.antt =====
-- internal/config: the parts of a configuration (schema.go) that events and functions are resolved
-- with.
pub mod Collapse
pub mod Export
pub mod Chain
pub mod Stages
pub mod Fleet
pub mod Arrivals
pub mod Entries
pub mod Barrier
pub mod Systems
pub mod Extended
pub mod Later
pub mod Puts
pub mod Extends
pub mod Ends
use honeydipper.Common.{Option, none, some, List, String}
use honeydipper.Common.Assoc.{Assoc}
use honeydipper.Value.{Value, obj, Fields, end}
use honeydipper.Workflow.Types.{Workflow}

-- Event and Action.
pub record Event : Type 0 where
  pub system : String
  pub trigger : String

pub record Action : Type 0 where
  pub system : String
  pub function : String

-- Trigger. A map that may be nil is an option, a Meta that is nil is null. The criteria are the
-- field Match.
pub record Trigger : Type 0 where
  pub driver : String
  pub raw_event : String
  pub criteria : Option Fields
  pub parameters : Option Fields
  pub source : Event
  pub exports : Option Fields
  pub description : String
  pub meta : Value

pub record Function : Type 0 where
  pub driver : String
  pub raw_action : String
  pub parameters : Option Fields
  pub target : Action
  pub exports : Option Fields
  pub export_on_success : Option Fields
  pub export_on_failure : Option Fields
  pub description : String
  pub meta : Value

pub record System : Type 0 where
  pub content : Option Fields
  pub triggers : Assoc Trigger
  pub functions : Assoc Function
  pub extends : List String
  pub description : String
  pub meta : Value

pub record Rule : Type 0 where
  pub on_event : Trigger
  pub action : Workflow

-- DataSet
pub record DataSet : Type 0 where
  pub systems : Assoc System
  pub rules : List Rule

-- A map that may be nil, in an interface value that is not nil.
abbrev pub as_value : Option Fields → Value
as_value none = obj end
as_value (some fs) = obj fs

abbrev pub or_end : Option Fields → Fields
or_end none = end
or_end (some fs) = fs
