-- ===== src/Sleigh/Pspec.antt =====
-- The processor specification: mizl_core/src/sleigh/pspec_file.rs. The parser of XML, roxmltree, is
-- a parameter: the operations of its nodes that the code calls.
pub mod Names
pub mod Numbers
pub mod Decode
pub mod Context
use mizl_h_public.Base.{ℕ, Bool, List, Option, none, some}

pub record PspecConstSetEntry : Type 0 where
  pub name : List ℕ
  pub val : ℕ

pub record PspecConstSet : Type 0 where
  pub tracked : Bool
  pub space : List ℕ
  pub entries : List PspecConstSetEntry

pub record PspecRegister : Type 0 where
  pub name : List ℕ
  pub rename : List ℕ
  pub alias : List ℕ
  pub group : List ℕ
  pub hidden : Bool
  pub vector_lane_sizes : List ℕ

-- The map of the properties is a list, the entry that was inserted last in front.
pub record Pspec : Type 0 where
  pub properties : List (List ℕ × List ℕ)
  pub program_counter : List ℕ
  pub context_settings : List PspecConstSet
  pub registers : List PspecRegister

pub data PspecError : Type 0 where
  invalid_xml invalid_format root_scope_missing symbol_missing : PspecError

-- `Result<_, PspecError>`
pub data Parsed {ℓ} (A : Type ℓ) : Type ℓ where
  parsed : A → Parsed A
  refused : PspecError → Parsed A

module _ {ℓ κ} {A : Type ℓ} {B : Type κ} where
  infixl 5 ◌>>=◌
  abbrev pub ◌>>=◌ : Parsed A → (A → Parsed B) → Parsed B
  refused e >>= next = refused e
  parsed a >>= next = next a

-- `ok_or(e)`
abbrev pub ok_or {ℓ} : {A : Type ℓ} → Option A → PspecError → Parsed A
ok_or (some a) e = parsed a
ok_or none e = refused e

-- The nodes of a document: `is_element`, `tag_name().name()`, `attribute` and `children`.
pub record Xml (N : Type 0) : Type 0 where
  pub is_element : N → Bool
  pub tag_name : N → List ℕ
  pub attribute : N → List ℕ → Option (List ℕ)
  pub children : N → List N
