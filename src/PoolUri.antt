-- ===== src/PoolUri.antt =====
-- protocol/PoolURI.h and protocol/PoolURI.cpp: the endpoint of a mining pool.
pub mod Parse
pub mod Constructor
pub mod Reads
pub mod Endpoint
mod Examples
use gen2_energiminer.Common.{
  ℕ, ◌%◌, ◌^◌, Bool, true, false, List, [], ◌∷◌, Text, codes, text_eq, if◌then◌else◌, Option, none,
  some,
}

pub data SecureLevel : Type 0 where
  no_tls tls12 tls : SecureLevel

pub data ProtocolFamily : Type 0 where
  getwork stratum : ProtocolFamily

pub record SchemeAttributes : Type 0 where
  pub family : ProtocolFamily
  pub secure : SecureLevel
  pub version : ℕ

pub record Uri : Type 0 where
  pub scheme : Text
  pub host : Text
  pub path : Text
  pub query : Text
  pub fragment : Text
  pub username : Text
  pub password : Text
  pub uri : Text
  pub stratum_mode : ℕ
  pub port : ℕ
  pub valid : Bool
  pub stratum_mode_confirmed : Bool
  pub unrecoverable : Bool

-- `s_schemes`, in the map's order of keys.
abbrev pub schemes : List (Text × SchemeAttributes)
schemes =
    (codes "getwork", record { family = getwork; secure = no_tls; version = 0 })
    ∷ (codes "http", record { family = getwork; secure = no_tls; version = 0 })
    ∷ (codes "stratum", record { family = stratum; secure = no_tls; version = 999 })
    ∷ (codes "stratums", record { family = stratum; secure = tls; version = 999 })
    ∷ (codes "stratumss", record { family = stratum; secure = tls12; version = 999 })
    ∷ []

unfoldable pub find_scheme : Text → List (Text × SchemeAttributes) → Option SchemeAttributes
find_scheme s [] = none
find_scheme s ((k, a) ∷ r) = if text_eq k s then some a else find_scheme s r

unfoldable pub known_scheme : Uri → Bool
unfolding find_scheme text_eq
known_scheme u = elim (find_scheme u.scheme schemes) [ none ↦ false | some a ↦ true ]

-- `s_schemes[m_scheme]`: a key that is not there gets a value with every member 0.
unfoldable pub attributes : Uri → SchemeAttributes
unfolding find_scheme text_eq
attributes u = elim (find_scheme u.scheme schemes) [
  | none ↦ record { family = getwork; secure = no_tls; version = 0 }
  | some a ↦ a
]

unfoldable pub set_stratum_mode : ℕ → Bool → Uri → Uri
set_stratum_mode mode confirmed u = record u {
  stratum_mode = mode % 2 ^ 16;
  stratum_mode_confirmed = confirmed;
}

unfoldable pub set_stratum_mode_only : ℕ → Uri → Uri
set_stratum_mode_only mode u = record u { stratum_mode = mode % 2 ^ 16 }

unfoldable pub mark_unrecoverable : Uri → Uri
mark_unrecoverable u = record u { unrecoverable = true }
