-- ===== src/Collection/Types.antt =====
-- The artwork collection's view that reconciliation and themes read (internal/collection/types.go).
-- Originals, sources and transform keys describe how a file was made; no modelled code reads them.
use frame_tv_art_manager.Prelude.{ℕ_discrete, ℕ, Text, Bool, List}
use frame_tv_art_manager.Prelude.Int.{ℤ}

pub data FileType : Type 0 where
  jpeg png : FileType
  other_type : Text → FileType

unfoldable pub FileType-discrete : Discrete FileType
FileType-discrete = hlevel ℕ_discrete

pub record Origin : Type 0 where
  pub key : Text
  pub class : Text

pub record Item : Type 0 where
  pub name : Text
  pub key : Text
  pub path : Text
  pub digest : List ℕ  -- [32]byte
  pub file_type : FileType
  pub size : ℤ
  pub width : ℤ
  pub height : ℤ
  pub origin : Origin

pub data ChangeKind : Type 0 where
  added adopted duplicate missing : ChangeKind

pub record Change : Type 0 where
  pub kind : ChangeKind
  pub name : Text

pub record Snapshot : Type 0 where
  pub generation : Text
  pub items : List Item
  pub changes : List Change
  pub warnings : List Text
  pub dry_run : Bool

unfoldable pub ChangeKind-discrete : Discrete ChangeKind
ChangeKind-discrete = hlevel
