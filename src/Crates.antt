-- ===== src/Crates.antt =====
-- The crates that the source calls and does not contain: `semver` and the JSON values of
-- `serde_json`. Every component takes them as a parameter.
use outboard.Prelude.{Text, codes, ◌≡◌, Bool, true, Option, some, Eq}

pub record Crates : Type 1 where
  -- semver::Version, semver::VersionReq, serde_json::Value
  pub Version : Type 0
  pub VersionReq : Type 0
  pub Value : Type 0
  -- f64, which the source only carries along
  pub Float : Type 0
  pub version_eq : Eq Version
  pub req_eq : Eq VersionReq
  pub value_eq : Eq Value
  -- Version::parse, VersionReq::parse, VersionReq::matches
  pub parse_version : Text → Option Version
  pub parse_req : Text → Option VersionReq
  pub matches : VersionReq → Version → Bool
  -- The literals that the source parses with `expect` or `unwrap` parse.
  pub framework_version : Version
  pub framework_parses : parse_version (codes "0.1.0") ≡ some framework_version
  pub framework_req : VersionReq
  pub framework_req_parses : parse_req (codes "^0.1.0") ≡ some framework_req
  pub protocol_version : Version
  pub protocol_parses : parse_version (codes "1.0.0") ≡ some protocol_version
  pub protocol_req : VersionReq
  pub protocol_req_parses : parse_req (codes "^1.0") ≡ some protocol_req
  -- A caret requirement matches the version that it is made from.
  pub framework_accepted : matches framework_req framework_version ≡ true
  pub protocol_accepted : matches protocol_req protocol_version ≡ true
