-- ===== src/Config.antt =====
-- src/config.rs: the configuration of the server and its test. The TOML parser and the file are
-- parameters; a message is its format and arguments.
use vo_e.Common.{
  ℕ, ◌≡◌, Bytes, Bool, true, false, ◌&&◌, ◌||◌, ◌==◌, if◌then◌else◌, Option, none, some, All, List,
  [], ◌∷◌, Outcome, ok, err, map_err, ◌>>=◌, ◌>>◌, ErrorKind,
}

pub data BackendType : Type 0 where
  file cas : BackendType

pub record FileBackendConfig : Type 0 where
  pub path : Bytes
  pub size : Option ℕ

pub data BlobStoreConfig : Type 0 where
  file_store : Bytes → BlobStoreConfig

pub record CasBackendConfig : Type 0 where
  pub block_size : ℕ
  pub total_sectors : ℕ
  pub blob_store : BlobStoreConfig

pub record TargetConfig : Type 0 where
  pub shelf : ℕ
  pub slot : ℕ
  pub backend : BackendType
  pub file : Option FileBackendConfig
  pub cas : Option CasBackendConfig
  pub config_string : Bytes

pub record ServerConfig : Type 0 where
  pub interface_name : Bytes
  pub log_level : Bytes

pub record Config : Type 0 where
  pub server : ServerConfig
  pub target : List TargetConfig

pub data Invalid : Type 0 where
  duplicate_target no_file_section no_cas_section : ℕ → ℕ → Invalid

pub data ConfigError : Type 0 where
  io : ErrorKind → ConfigError
  parse_error : Bytes → ConfigError
  invalid : Invalid → ConfigError

-- `contains` of the set of addresses
abbrev pub has : ℕ → ℕ → List (ℕ × ℕ) → Bool
has shelf slot [] = false
has shelf slot ((a, b) ∷ seen) = ((a == shelf) && (b == slot)) || has shelf slot seen

abbrev is_some : {A : Type 0} → Option A → Bool
is_some none = false
is_some (some a) = true

-- The section that the target's backend needs
abbrev pub has_section : TargetConfig → BackendType → Bool
has_section target BackendType.file = is_some target.file
has_section target BackendType.cas = is_some target.cas

abbrev pub section_error : TargetConfig → BackendType → ConfigError
section_error target BackendType.file = invalid (no_file_section target.shelf target.slot)
section_error target BackendType.cas = invalid (no_cas_section target.shelf target.slot)

-- The loop of `validate`
unfoldable pub validate_targets : List (ℕ × ℕ) → List TargetConfig → Outcome ConfigError (Unit {0})
validate_targets seen [] = ok tt
validate_targets seen (target ∷ rest) =
    let later = validate_targets ((target.shelf, target.slot) ∷ seen) rest in
    if has target.shelf target.slot seen
    then err (invalid (duplicate_target target.shelf target.slot))
    else if has_section target target.backend
    then later
    else err (section_error target target.backend)

unfoldable pub validate : Config → Outcome ConfigError (Unit {0})
unfolding validate_targets
validate config = validate_targets [] config.target

module _ (from_str : Bytes → Outcome Bytes Config) where
  unfoldable pub parse : Bytes → Outcome ConfigError Config
  unfolding validate
  parse content = do config ← map_err parse_error (from_str content); validate config; ok config

  unfoldable pub load : Outcome ErrorKind Bytes → Outcome ConfigError Config
  unfolding parse
  load read_to_string = do content ← map_err io read_to_string; parse content

-- Two targets with different addresses.
abbrev pub Apart : TargetConfig → TargetConfig → Type 0
Apart t u = t.shelf ≡ u.shelf → t.slot ≡ u.slot → ⊥

abbrev pub AllApart : List TargetConfig → Type 0
AllApart [] = Unit {0}
AllApart (t ∷ ts) = All (Apart t) ts × AllApart ts

abbrev pub IsComplete : TargetConfig → Type 0
IsComplete t = has_section t t.backend ≡ true

abbrev IsNew : List (ℕ × ℕ) → TargetConfig → Type 0
IsNew seen t = has t.shelf t.slot seen ≡ false
