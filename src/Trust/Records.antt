-- ===== src/Trust/Records.antt =====
-- The records of aiosendspin/noise/trust_store.py. A datetime is its number of microseconds in
-- UTC, and a frozenset of texts a list.
use aiosendspin.Prelude.{
  ℕ, ◌+◌, ◌*◌, String, Bool, true, false, Option, none, some, List, [], ◌∷◌, ◌++◌, ltb, ◌==◌,
  str_eq, if◌then◌else◌, length,
}
use aiosendspin.Wire.Constants.{Bytes}

-- `PSK_SIZE` of noise/keys.py
abbrev pub psk_size : ℕ
psk_size = 32

abbrev pub pairing_round_limit : ℕ
pairing_round_limit = 20

abbrev pub min_record_capacity : ℕ
min_record_capacity = 5

abbrev pub default_record_capacity : ℕ
default_record_capacity = 16

-- 24 hours
abbrev pub staged_pairing_psk_lifetime : ℕ
staged_pairing_psk_lifetime = 24 * 3600 * 1_000_000

pub data PskCategory : Type 0 where
  long_term pairing sentinel : PskCategory

-- `PskCategory.code`
unfoldable pub code : PskCategory → String
code long_term = "lt"
code pairing = "pr"
code sentinel = "sn"

-- `PskCategory.from_code`
unfoldable pub from_code : String → Option PskCategory
from_code c =
    if str_eq c "lt"
    then some long_term
    else if str_eq c "pr"
    then some pairing
    else if str_eq c "sn"
    then some sentinel
    else none

pub data PairMethod : Type 0 where
  dynamic_pairing_code pairing_psk_method static_pairing_code : PairMethod

abbrev pub method_eq : PairMethod → PairMethod → Bool
method_eq dynamic_pairing_code dynamic_pairing_code = true
method_eq pairing_psk_method pairing_psk_method = true
method_eq static_pairing_code static_pairing_code = true
method_eq _ _ = false

-- `m in methods`
unfoldable pub has_method : PairMethod → List PairMethod → Bool
has_method m [] = false
has_method m (n ∷ ns) = if method_eq n m then true else has_method m ns

pub record ResolvedPsk : Type 0 where
  pub psk_id : String
  pub psk : Bytes
  pub category : PskCategory
  pub counterparty_id : Option String

pub record ServerPairingRecord : Type 0 where
  pub psk_id : String
  pub psk : Bytes
  pub client_id : String
  pub pair_methods : List PairMethod
  pub created_at : ℕ
  pub owner : Option String

pub record ClientPairingRecord : Type 0 where
  pub psk_id : String
  pub psk : Bytes
  pub server_id : String
  pub used : Bool
  pub created_at : ℕ
  pub last_used_at : ℕ

pub record ClientPairingConfig : Type 0 where
  pub dynamic_pairing_code_enabled : Bool
  pub static_pairing_code_enabled : Bool
  pub unpaired_access_enabled : Bool

pub record PairingPsk : Type 0 where
  pub psk_id : String
  pub psk : Bytes

pub record StagedPairingPsk : Type 0 where
  pub psk_id : String
  pub psk : Bytes
  pub created_at : ℕ

pub record TrustedUnpairedClient : Type 0 where
  pub client_id : String
  pub created_at : ℕ
  pub approved_roles : List String

-- `_check_psk`, which raises unless this holds.
unfoldable pub is_psk : Bytes → Bool
is_psk psk = length psk == psk_size

-- `ClientPairingConfig()`
abbrev pub default_config : ClientPairingConfig
default_config = record {
  dynamic_pairing_code_enabled = true;
  static_pairing_code_enabled = false;
  unpaired_access_enabled = false;
}

-- `ServerPairingRecord.as_resolved`
unfoldable pub server_as_resolved : ServerPairingRecord → ResolvedPsk
server_as_resolved r = record {
  psk_id = r.psk_id;
  psk = r.psk;
  category = long_term;
  counterparty_id = some r.client_id;
}

-- `ServerPairingRecord.with_method`
unfoldable pub with_method : PairMethod → ServerPairingRecord → ServerPairingRecord
unfolding has_method
with_method m r =
    if has_method m r.pair_methods then r else record r { pair_methods = r.pair_methods ++ m ∷ [] }

-- `ClientPairingRecord.as_resolved`
unfoldable pub client_as_resolved : ClientPairingRecord → ResolvedPsk
client_as_resolved r = record {
  psk_id = r.psk_id;
  psk = r.psk;
  category = long_term;
  counterparty_id = some r.server_id;
}

-- `PairingPsk.as_resolved`
unfoldable pub pairing_as_resolved : PairingPsk → ResolvedPsk
pairing_as_resolved p = record {
  psk_id = p.psk_id;
  psk = p.psk;
  category = pairing;
  counterparty_id = none;
}

-- `StagedPairingPsk.as_resolved`
unfoldable pub staged_as_resolved : StagedPairingPsk → ResolvedPsk
staged_as_resolved p = record {
  psk_id = p.psk_id;
  psk = p.psk;
  category = pairing;
  counterparty_id = none;
}

-- `_is_expired`, at the clock's time `now`: `now - created_at > lifetime`.
unfoldable pub is_expired : ℕ → StagedPairingPsk → Bool
is_expired now staged = ltb (staged.created_at + staged_pairing_psk_lifetime) now
