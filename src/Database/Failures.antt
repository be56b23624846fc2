-- ===== src/Database/Failures.antt =====
-- db/errors.py: which exceptions mean that PostgreSQL is unavailable. Exceptions live in a heap, as
-- their causes may form a cycle; a failure's __context__ is not followed and is not in the model.
use ai_voice_agent.Prelude.{
  ℕ, zero, suc, Bool, true, false, not, ◌&&◌, ◌||◌, Option, none, some, List, [], ◌∷◌, ◌++◌, ◌==◌,
  if◌then◌else◌, any,
}
use ai_voice_agent.Text.{Text, codes, starts_with, text_eq}

-- errno values: those of _NETWORK_ERRNOS by name, any other by its number.
pub data Errno : Type 0 where
  connection_refused : Errno
  connection_reset : Errno
  connection_aborted : Errno
  broken_pipe : Errno
  network_down : Errno
  network_unreachable : Errno
  network_reset : Errno
  host_down : Errno
  host_unreachable : Errno
  timed_out : Errno
  other_errno : ℕ → Errno

-- What the code asks of an exception: the classes it is an instance of, and its attributes.
pub record Failure : Type 0 where
  pub is_exception : Bool
  pub is_database_error : Bool
  pub is_dbapi : Bool
  pub connection_invalidated : Bool
  pub orig : Option ℕ
  pub cause : Option ℕ
  pub is_pool_timeout : Bool
  pub is_connection_missing : Bool
  pub sqlstate : Option Text
  pub is_os_error : Bool
  pub is_connection_or_timeout : Bool
  pub errno : Option Errno
  pub message : Text

abbrev pub Heap : Type 0
Heap = ℕ → Failure

abbrev max_chain : ℕ
max_chain = 8

abbrev unavailable_sqlstates : List Text
unavailable_sqlstates =
    codes "57P01"
    ∷ codes "57P02"
    ∷ codes "57P03"
    ∷ codes "57P05"
    ∷ codes "53300"
    ∷ codes "3D000"
    ∷ []

abbrev acquisition_only_sqlstates : List Text
acquisition_only_sqlstates = codes "55000" ∷ []

unfoldable pub text_in : Text → List Text → Bool
text_in text texts = any (λ other. text_eq text other) texts

abbrev pub id_in : ℕ → List ℕ → Bool
id_in x xs = any (λ y. x == y) xs

-- `wrapped if isinstance(wrapped, BaseException) else current.__cause__`
unfoldable pub wraps : Failure → Option ℕ
wraps failure = elim (if failure.is_dbapi then failure.orig else none) [
  | none ↦ failure.cause
  | some wrapped ↦ some wrapped
]

-- The loop of _causes; `room` is how many entries the chain may still take.
unfoldable pub causes_from : Heap → ℕ → List ℕ → Option ℕ → List ℕ
unfolding wraps
causes_from heap zero chain current = chain
causes_from heap (suc room) chain none = chain
causes_from heap (suc room) chain (some e) =
    let rest = causes_from heap room (chain ++ e ∷ []) (wraps (heap e)) in
    if id_in e chain then chain else rest

-- _causes
unfoldable pub causes : Heap → ℕ → List ℕ
unfolding causes_from
causes heap e = causes_from heap max_chain [] (some e)

is_network_errno : Errno → Bool
is_network_errno connection_refused = true
is_network_errno connection_reset = true
is_network_errno connection_aborted = true
is_network_errno broken_pipe = true
is_network_errno network_down = true
is_network_errno network_unreachable = true
is_network_errno network_reset = true
is_network_errno host_down = true
is_network_errno host_unreachable = true
is_network_errno timed_out = true
is_network_errno (other_errno n) = false

network_errno : Failure → Option Errno → Bool
unfolding is_network_errno
network_errno failure none = starts_with (codes "Multiple exceptions:") failure.message
network_errno failure (some errno) = is_network_errno errno

-- _is_network_failure
unfoldable pub is_network_failure : Failure → Bool
unfolding network_errno is_network_errno
is_network_failure failure =
    if not failure.is_os_error
    then false
    else if failure.is_connection_or_timeout
    then true
    else network_errno failure failure.errno

is_unavailable_sqlstate : Option Text → Bool
is_unavailable_sqlstate none = false
is_unavailable_sqlstate (some state) =
    starts_with (codes "08") state || text_in state unavailable_sqlstates

-- The tests of one candidate in is_database_unavailable.
unfoldable pub is_outage : Failure → Bool
unfolding is_unavailable_sqlstate is_network_failure
is_outage failure =
    if failure.is_dbapi && failure.connection_invalidated
    then true
    else if failure.is_pool_timeout
    then true
    else if failure.is_connection_missing
    then true
    else if is_unavailable_sqlstate failure.sqlstate
    then true
    else is_network_failure failure

-- The test of one candidate in is_connection_acquisition_unavailable.
unfoldable pub is_acquisition_refusal : Failure → Bool
is_acquisition_refusal failure = elim failure.sqlstate [
  | none ↦ false
  | some state ↦ text_in state acquisition_only_sqlstates
]

-- The loop that both classifiers share: the first candidate that is no Exception ends it with no,
-- the first that meets the test with yes.
unfoldable pub scan : Heap → (Failure → Bool) → List ℕ → Bool
scan heap test [] = false
scan heap test (e ∷ chain) =
    let rest = scan heap test chain in
    if not (heap e).is_exception then false else if test (heap e) then true else rest

unfoldable pub is_database_unavailable : Heap → ℕ → Bool
unfolding scan causes is_outage
is_database_unavailable heap e = scan heap is_outage (causes heap e)

unfoldable pub is_connection_acquisition_unavailable : Heap → ℕ → Bool
unfolding is_database_unavailable scan causes is_acquisition_refusal
is_connection_acquisition_unavailable heap e =
    if is_database_unavailable heap e
    then true
    else scan heap is_acquisition_refusal (causes heap e)
