-- ===== src/Transport.antt =====
-- src/grilio_transport.c: the name of a transport and the calls that the class of the transport
-- answers.
pub mod Signals
use libgrilio.Base.{ℕ, Bool, Option, none, some, List, [], ◌∷◌, ◌++◌}
use libgrilio.Channel.State.{SendStatus}

-- What a class derived from the transport defines, over its own state.
pub record Class (S : Type 0) : Type 0 where
  pub ril_version_offset : ℕ
  pub send : ℕ → ℕ → S → SendStatus × S
  pub shutdown : Bool → S → S

-- `name` and `log_prefix`, and the copies that the transport owns.
pub record Names : Type 0 where
  pub name : Option (List ℕ)
  pub log_prefix : List ℕ
  pub own_name : Option (List ℕ)
  pub own_prefix : Option (List ℕ)

-- `grilio_transport_init`: "RIL" and "RIL ".
abbrev pub init : Names
init = record {
  name = some (82 ∷ 73 ∷ 76 ∷ []);
  log_prefix = 82 ∷ 73 ∷ 76 ∷ 32 ∷ [];
  own_name = none;
  own_prefix = none;
}

-- `grilio_transport_set_name`
unfoldable pub set_name : Option (List ℕ) → Names → Names
set_name none n = record { name = none; log_prefix = []; own_name = none; own_prefix = none }
set_name (some []) n = record {
  name = some [];
  log_prefix = [];
  own_name = some [];
  own_prefix = none;
}
set_name (some (c ∷ l)) n = record {
  name = some (c ∷ l);
  log_prefix = c ∷ l ++ (32 ∷ []);
  own_name = some (c ∷ l);
  own_prefix = some (c ∷ l ++ (32 ∷ []));
}

module _ {S : Type 0} (class : Class S) where
  -- `grilio_transport_version_offset`, of a transport or of NULL.
  unfoldable pub version_offset : Option S → ℕ
  version_offset none = 0
  version_offset (some s) = class.ril_version_offset

  -- `grilio_transport_send`, of a request or of NULL.
  unfoldable pub send : Option ℕ → ℕ → S → SendStatus × S
  send none code s = (SendStatus.error, s)
  send (some p) code s = class.send p code s

  -- `grilio_transport_shutdown`
  unfoldable pub shutdown : Bool → S → S
  shutdown flush s = class.shutdown flush s
