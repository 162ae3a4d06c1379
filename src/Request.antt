-- ===== src/Request.antt =====
-- src/grilio_p.h, struct grilio_request, and the setters and getters of src/grilio_request.c.
-- The link fields `next` and `qnext` are the order of the lists that hold a request (Channel.State).
-- The three bits of `flags` are three fields. A callback is
-- a number that names it, but for `retry`, whose answer the channel acts on.
pub mod Append
pub mod Arrays
pub mod Contents
pub mod Strings
use libgrilio.Base.{ℕ, Bool, true, false, not, ◌||◌, Option, none, some, List, length}
use libgrilio.Base.Int.{ℤ, pos, negsuc, is_negative, is_above, int_eq}

-- enum grilio_request_status
pub data Status : Type 0 where
  invalid new queued sending sent cancelled done retry : Status

abbrev pub status_eq : Status → Status → Bool
status_eq Status.new Status.new = true
status_eq Status.queued Status.queued = true
status_eq Status.sending Status.sending = true
status_eq Status.sent Status.sent = true
status_eq Status.cancelled Status.cancelled = true
status_eq Status.done Status.done = true
status_eq Status.retry Status.retry = true
status_eq Status.invalid Status.invalid = true
status_eq _ _ = false

pub record Request : Type 0 where
  pub refcount : ℕ
  pub timeout : ℤ
  pub code : ℕ
  pub id : ℕ
  pub current_id : ℕ
  pub deadline : ℕ
  pub submitted : ℕ
  pub status : Status
  pub max_retries : ℤ
  pub retry_count : ℕ
  pub retry_period : ℕ
  pub bytes : Option (List ℕ)
  pub queue : Option ℕ
  pub retry : ℤ → List ℕ → Bool
  pub response : Option ℕ
  pub destroy : Option ℕ
  pub user_data : ℕ
  pub blocking : Bool
  pub internal : Bool
  pub no_reply : Bool

abbrev pub timeout_none : ℤ
timeout_none = pos 0

abbrev pub timeout_default : ℤ
timeout_default = negsuc 0

-- RIL_E_SUCCESS is 0.
unfoldable pub default_retry : ℤ → List ℕ → Bool
default_retry ril_status response_data = not (int_eq ril_status (pos 0))

-- `grilio_request_sized_new`: g_slice_new0, then the fields that are not 0. A size other than 0
-- allocates an empty array.
unfoldable pub sized_new : Option (List ℕ) → Request
sized_new bytes = record {
  refcount = 1;
  timeout = timeout_default;
  code = 0;
  id = 0;
  current_id = 0;
  deadline = 0;
  submitted = 0;
  status = Status.new;
  max_retries = pos 0;
  retry_count = 0;
  retry_period = 0;
  bytes = bytes;
  queue = none;
  retry = default_retry;
  response = none;
  destroy = none;
  user_data = 0;
  blocking = false;
  internal = false;
  no_reply = false;
}

-- `grilio_request_new`
abbrev pub request_new : Request
request_new = sized_new none

unfoldable pub can_retry : Request → Bool
can_retry r = is_negative r.max_retries || is_above r.retry_count r.max_retries

unfoldable pub set_blocking : Bool → Request → Request
set_blocking b r = record r { blocking = b }

unfoldable pub set_timeout : ℤ → Request → Request
set_timeout ms r = record r { timeout = ms }

unfoldable pub set_retry : ℕ → ℤ → Request → Request
set_retry ms max r = record r { retry_period = ms; max_retries = max }

unfoldable pub set_retry_func : Option (ℤ → List ℕ → Bool) → Request → Request
set_retry_func none r = record r { retry = default_retry }
set_retry_func (some f) r = record r { retry = f }

-- The getters take NULL for a request that is not there.
unfoldable pub retry_count_of : Option Request → ℕ
retry_count_of none = 0
retry_count_of (some r) = r.retry_count

unfoldable pub status_of : Option Request → Status
status_of none = Status.invalid
status_of (some r) = r.status

unfoldable pub id_of : Option Request → ℕ
id_of none = 0
id_of (some r) = r.id

unfoldable pub serial_of : Option Request → ℕ
serial_of none = 0
serial_of (some r) = r.current_id

-- `grilio_request_data` and `grilio_request_size`
unfoldable pub data_of : Option Request → Option (List ℕ)
data_of none = none
data_of (some r) = r.bytes

abbrev size_in : Option (List ℕ) → ℕ
size_in none = 0
size_in (some b) = length b

unfoldable pub size_of : Option Request → ℕ
size_of none = 0
size_of (some r) = size_in r.bytes
