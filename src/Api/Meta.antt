-- ===== src/Api/Meta.antt =====
-- metav1: the metadata that every object carries, and status conditions. Only the fields that the
-- controllers use are kept; a timestamp is its number of seconds.
use konfirm.Base.{ℕ, String, Bool, Option, List}

pub record OwnerReference : Type 0 where
  pub api_version : String
  pub kind : String
  pub name : String
  pub uid : String
  pub controller : Bool
  pub block_owner_deletion : Bool

pub record TypeMeta : Type 0 where
  pub api_version : String
  pub kind : String

pub record ObjectMeta : Type 0 where
  pub name : String
  pub generate_name : String
  pub namespace : String
  pub uid : String
  pub generation : ℕ
  pub creation_timestamp : ℕ
  pub deletion_timestamp : Option ℕ
  pub finalizers : List String
  pub owner_references : List OwnerReference
  pub labels : List (String × String)
  pub annotations : List (String × String)

pub record Condition : Type 0 where
  pub type : String
  pub status : String
  pub observed_generation : ℕ
  pub reason : String
  pub message : String
