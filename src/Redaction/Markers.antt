-- ===== src/Redaction/Markers.antt =====
-- The fixed markers and the limits of redaction.py.
use ai_voice_agent.Prelude.{ℕ, [], ◌∷◌}
use ai_voice_agent.Text.{Text, codes}

abbrev pub redacted : Text
redacted = codes "[REDACTED]"

abbrev pub truncated : Text
truncated = codes "[TRUNCATED]"

abbrev pub cycle : Text
cycle = codes "[CYCLE]"

abbrev pub repeated : Text
repeated = codes "[REPEATED]"

abbrev pub unreadable : Text
unreadable = codes "[UNREADABLE]"

abbrev pub unsupported : Text
unsupported = codes "[UNSUPPORTED]"

abbrev pub truncated_sensitive : Text
truncated_sensitive = codes "[TRUNCATED_SENSITIVE_VALUE]"

abbrev pub max_depth : ℕ
max_depth = 8

abbrev pub max_items : ℕ
max_items = 200

abbrev pub max_event_fields : ℕ
max_event_fields = 200

abbrev pub max_string_length : ℕ
max_string_length = 16384

abbrev pub max_event_nodes : ℕ
max_event_nodes = 2048

abbrev pub max_event_scan : ℕ
max_event_scan = 524288

abbrev pub max_event_output : ℕ
max_event_output = 65536

abbrev pub separator_cost : ℕ
separator_cost = 2

-- The quotes, brackets and delimiters that the scanners of free text read.
abbrev pub quotes : Text
quotes = codes "\"'"

abbrev pub openers : Text
openers = codes "([{"

abbrev pub closers : Text
closers = codes ")]}"

abbrev pub key_trailers : Text
key_trailers = codes "\\\"'])}+"

abbrev pub string_prefixes : Text
string_prefixes = codes "bBuUrReE"

-- " \t\n\r\v\f"
abbrev pub value_delimiters : Text
value_delimiters = 32 ∷ 9 ∷ 10 ∷ 13 ∷ 11 ∷ 12 ∷ []

abbrev pub backslash : ℕ
backslash = 92

-- "\r\n"
abbrev pub line_ends : Text
line_ends = 13 ∷ 10 ∷ []

-- "\ue000" and "\ue001"
abbrev pub fragment_open : ℕ
fragment_open = 57344

abbrev pub fragment_close : ℕ
fragment_close = 57345
