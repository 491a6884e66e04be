-- ===== src/Manifest/Types.antt =====
-- plugin/manifest/manifest.go and size.go: the structs of a herdr-plugin.toml file. A slice whose
-- nil form means something of its own, `Platforms`, is an `Option`.
use herdr_client.Prelude.{ℕ, String, Option, List}

pub record PopupSize : Type 0 where
  pub cells : ℕ
  pub percent : ℕ

pub record Build : Type 0 where
  pub command : List String
  pub platforms : Option (List String)

pub record Startup : Type 0 where
  pub command : List String
  pub platforms : Option (List String)

pub record Action : Type 0 where
  pub id : String
  pub title : String
  pub description : String
  pub contexts : List String
  pub command : List String
  pub platforms : Option (List String)

pub record EventHook : Type 0 where
  pub on : String
  pub command : List String
  pub platforms : Option (List String)

pub record Pane : Type 0 where
  pub id : String
  pub title : String
  pub description : String
  pub placement : String
  pub width : Option PopupSize
  pub height : Option PopupSize
  pub command : List String
  pub platforms : Option (List String)

pub record LinkHandler : Type 0 where
  pub id : String
  pub title : String
  pub pattern_text : String
  pub action : String
  pub platforms : Option (List String)

pub record Manifest : Type 0 where
  pub id : String
  pub name : String
  pub version : String
  pub min_herdr_version : String
  pub description : String
  pub platforms : Option (List String)
  pub build : List Build
  pub startup : List Startup
  pub actions : List Action
  pub events : List EventHook
  pub panes : List Pane
  pub link_handlers : List LinkHandler
