-- ===== src/Themes/Types.antt =====
-- The records of internal/themes/themes.go.
use frame_tv_art_manager.Prelude.{ℕ, Text, Bool, List}

pub data Mode : Type 0 where
  always off window : Mode
  other_mode : Text → Mode

pub record Activation : Type 0 where
  pub mode : Mode
  pub start : Text
  pub end : Text

pub record Member : Type 0 where
  pub key : Text
  pub origin : Text
  pub digest : Text
  pub name : Text
  pub title : Text
  pub artist : Text
  pub description : Text
  pub license : Text
  pub link : Text
  pub added_at : ℕ

pub record Themed : Type 0 where
  pub slug : Text
  pub name : Text
  pub description : Text
  pub exclusive : Bool
  pub activation : Activation
  pub members : List Member

pub record Identity : Type 0 where
  pub key : Text
  pub origin : Text
  pub digest : Text

abbrev pub max_members : ℕ
max_members = 10_000
