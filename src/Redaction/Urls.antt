-- ===== src/Redaction/Urls.antt =====
-- redaction.py: _userinfo_end, _signed_url_end, _scrub_signed_references and _scrub_urls, which mask
-- the credentials of URLs and signed URLs whole.
pub mod Userinfo
pub mod Spanning
pub mod Parameters
pub mod Signed
pub mod Hiding
use ai_voice_agent.Prelude.{
  loop, ℕ, zero, suc, ◌+◌, min, max, Bool, true, false, not, ◌&&◌, ◌||◌, Option, none, some, List,
  [], ◌∷◌, ◌++◌, ltb, leb, ◌==◌, if◌then◌else◌, length,
}
use ai_voice_agent.Redaction.Keys.{is_sensitive_parameter, is_signing_parameter}
use ai_voice_agent.Redaction.Library.{is_space, runs, Library}
use ai_voice_agent.Redaction.Spans.{Span, replace_spans}
use ai_voice_agent.Text.{
  Text, codes, slice, find_in, rfind_in, or_end, find_text, contains, one_of, char_in,
}

abbrev pub is_at : ℕ → Bool
is_at c = c == b'@'

-- `last_at >= position`, where the source's -1 is `none`
abbrev reaches : Option ℕ → ℕ → Bool
reaches none position = false
reaches (some k) position = leb position k

abbrev or_else_at : Option ℕ → Option ℕ → Option ℕ
or_else_at none other = other
or_else_at (some k) other = some k

-- _AUTHORITY_END, _QUERY_START, _PARAMETER_END, _SIGNED_PARAMETER_END
abbrev ends_authority : ℕ → Bool
ends_authority = one_of (codes "/?#")

abbrev pub starts_query : ℕ → Bool
starts_query = one_of (codes "?#")

abbrev pub ends_parameter : ℕ → Bool
ends_parameter = one_of (codes "&#")

abbrev pub ends_signed_parameter : ℕ → Bool
ends_signed_parameter = one_of (codes "&#?")

abbrev scheme_characters : Text
scheme_characters = codes "abcdefghijklmnopqrstuvwxyzABCDEFGHIJKLMNOPQRSTUVWXYZ0123456789+.-"

-- _PORTS.fullmatch: digits, then entries of a multi-host URL, each with its own digits.
module _ (lib : Library) where
  mutual
    pub ports_digits : Text → Bool
    ports_digits [] = true
    ports_digits (c ∷ text) =
        let more = ports_digits text in
        let host = ports_host text in
        if lib.is_decimal c then more else if c == b',' then host else false

    ports_host : Text → Bool
    ports_host [] = true
    ports_host (c ∷ text) =
        let more = ports_host text in
        let digits = ports_digits text in
        if c == b':' then digits else if c == b'@' then false else more

  module _ (text : Text) where
    size : ℕ
    size = length text

    unfoldable pub netloc_end : ℕ → ℕ
    unfolding size
    netloc_end start = or_end (find_in ends_authority text start size) size

    -- An IPv6 literal's colons separate nothing.
    host_start : ℕ → ℕ
    unfolding netloc_end
    host_start start =
        if char_in (codes "[") text start
        then elim (find_in (λ c. c == b']') text start (netloc_end start)) [
          | none ↦ start
          | some closing ↦ closing + 1
        ]
        else start

    -- The userinfo of an authority with a colon at `colon` and no "@" in it.
    password_end : ℕ → ℕ → Option ℕ → Bool → ℕ → ℕ
    unfolding netloc_end size
    password_end start token_end last_at cut colon_at =
        let authority_end = min (netloc_end start) token_end in
        if reaches last_at (netloc_end start)
        then or_end
            (or_else_at (rfind_in is_at text (netloc_end start) token_end)
              (find_in is_at text token_end size))
            start
        else if cut
        then size
        else if leb (colon_at + 1) authority_end
            && ports_digits (slice text (colon_at + 1) authority_end)
        then start
        else authority_end

    colon_end : ℕ → ℕ → Option ℕ → Bool → Option ℕ → ℕ
    unfolding password_end
    colon_end start token_end last_at cut none = start
    colon_end start token_end last_at cut (some colon_at) =
        password_end start token_end last_at cut colon_at

    at_end : ℕ → ℕ → Option ℕ → Bool → Option ℕ → ℕ
    unfolding colon_end host_start size
    at_end start token_end last_at cut none = colon_end start token_end last_at cut (
        find_in (λ c. c == b':') text (host_start start)
          (or_end (find_in (λ c. c == b'/') text start size) size))
    at_end start token_end last_at cut (some at) = at

    -- _userinfo_end
    unfoldable pub userinfo_end : ℕ → ℕ → Option ℕ → Bool → ℕ
    unfolding at_end netloc_end
    userinfo_end start token_end last_at cut =
        at_end start token_end last_at cut
          (if reaches last_at start then rfind_in is_at text start (netloc_end start) else none)

-- The variables of _signed_url_end; `stop` is the source's `end`.
pub record SignedScan : Type 0 where
  pub index : ℕ
  pub signed : Bool
  pub stop : Option ℕ

-- The variables of the first loop of _scrub_urls. A URL is kept as where its "://" stands, where
-- its userinfo ends and where its token ends.
pub record UrlScan : Type 0 where
  pub position : ℕ
  pub token_end : ℕ
  pub parameters_from : Option ℕ
  pub spans : List Span
  pub urls : List (ℕ × ℕ × ℕ)
  pub finished : Bool

pub record ParameterScan : Type 0 where
  pub index : ℕ
  pub spans : List Span

abbrev pub marker_text : Text
marker_text = codes "://"

module _ (lib : Library) (text : Text) where
  pub segment_end : (ℕ → Bool) → ℕ → ℕ → ℕ
  segment_end p index region_end = or_end (find_in p text index region_end) region_end

  pub signed_segment : SignedScan → ℕ → Option ℕ → SignedScan
  signed_segment s stop none = record s { index = stop + 1 }
  signed_segment s stop (some equals_at) = record s {
    index = stop + 1;
    signed = s.signed || is_signing_parameter lib (slice text s.index equals_at);
    stop = some (or_end (find_in is_space text (equals_at + 1) stop) stop);
  }

  pub signed_running : ℕ → SignedScan → Bool
  signed_running region_end s = ltb s.index region_end

  pub signed_round : ℕ → SignedScan → SignedScan
  unfolding signed_segment segment_end
  signed_round region_end s =
      let stop = segment_end ends_signed_parameter s.index region_end in
      signed_segment s stop (find_in (λ c. c == b'=') text s.index stop)

  pub signed_scan : ℕ → ℕ → SignedScan
  unfolding signed_running signed_round
  signed_scan query_from region_end =
      loop (region_end + 1) (signed_running region_end) (signed_round region_end)
        (record { index = query_from; signed = false; stop = none })

  -- _signed_url_end; `none` is the source's -1
  pub signed_url_end : ℕ → ℕ → Option ℕ
  unfolding signed_scan
  signed_url_end query_from region_end =
      let s = signed_scan query_from region_end in if s.signed then s.stop else none

  token_span : ℕ × ℕ → Option ℕ → List Span
  token_span token none = []
  token_span (start, stop) (some question) =
      if contains marker_text (slice text start stop)
      then []
      else elim (signed_url_end (question + 1) stop) [ none ↦ [] | some _ ↦ (start, stop) ∷ [] ]

  reference_spans : List (ℕ × ℕ) → List Span
  unfolding token_span
  reference_spans [] = []
  reference_spans ((start, stop) ∷ tokens) =
      token_span (start, stop) (find_in (λ c. c == b'?') text start stop) ++ reference_spans tokens

  -- _scrub_signed_references
  pub scrub_signed_references : Text
  unfolding reference_spans
  scrub_signed_references =
      if one_of text b'?'
      then replace_spans text (reference_spans (runs (λ c. not (is_space c)) text))
      else text

  -- The first loop of _scrub_urls: the userinfo of each URL.
  pub url_found : Bool → UrlScan → Option ℕ → UrlScan
  url_found cut s none = record s { finished = true }
  url_found cut s (some marker) =
      let start = marker + 3 in
      let token_end =
        if ltb s.token_end start
        then or_end (find_in is_space text start (length text)) (length text)
        else s.token_end in
      let mask_end =
        userinfo_end lib text start token_end (rfind_in is_at text 0 (length text)) cut in
      record {
        position = start;
        token_end = token_end;
        parameters_from = elim s.parameters_from [
          | none ↦ elim (find_in starts_query text (max start mask_end) (length text)) [
            | none ↦ none
            | some opener ↦ some (opener + 1)
          ]
          | some k ↦ some k
        ];
        spans = (start, mask_end) ∷ s.spans;
        urls = s.urls ++ (marker, max start mask_end, token_end) ∷ [];
        finished = false;
      }

  pub url_running : UrlScan → Bool
  url_running s = not s.finished

  pub url_round : Bool → UrlScan → UrlScan
  unfolding url_found
  url_round cut s = url_found cut s (find_text marker_text text s.position)

  unfoldable pub url_scan : Bool → UrlScan
  unfolding url_running url_round
  url_scan cut = loop (length text + 2) url_running (url_round cut) (record {
    position = 0;
    token_end = 0;
    parameters_from = none;
    spans = [];
    urls = [];
    finished = false;
  })

  -- `while scheme_start > 0 and text[scheme_start - 1] in _SCHEME_CHARACTERS`
  pub scheme_start : ℕ → ℕ
  scheme_start zero = zero
  scheme_start (suc k) =
      let before = scheme_start k in if char_in scheme_characters text k then before else suc k

  -- One URL of the second loop; the last argument is where its query starts.
  pub signed_here : ℕ → ℕ → ℕ → ℕ → Option ℕ → List Span
  unfolding scheme_start
  signed_here marker after_userinfo token_end region_end none = []
  signed_here marker after_userinfo token_end region_end (some opener) =
      elim (signed_url_end (opener + 1) region_end) [
        | none ↦ []
        | some signed_end ↦ (scheme_start marker, max signed_end (min token_end region_end)) ∷ []
      ]

  -- The second loop: a signed URL from its scheme to the end of its last parameter.
  pub signed_spans : List (ℕ × ℕ × ℕ) → List Span
  unfolding signed_here
  signed_spans [] = []
  signed_spans ((marker, after_userinfo, token_end) ∷ urls) =
      let region_end = elim urls as (λ _. ℕ) [ [] ↦ length text | next ∷ _ ↦ next.0 ] in
      signed_here marker after_userinfo token_end region_end
        (find_in starts_query text after_userinfo region_end)
      ++ signed_spans urls

  -- The third loop: sensitive parameters, to the next "&" or to the end.
  pub parameter_segment : ParameterScan → ℕ → Option ℕ → ParameterScan
  parameter_segment s stop none = record s { index = stop + 1 }
  parameter_segment s stop (some equals_at) =
      let ampersand =
        or_end (find_in (λ c. c == b'&') text equals_at (length text)) (length text) in
      if is_sensitive_parameter lib (slice text s.index equals_at)
      then record { index = ampersand + 1; spans = (equals_at + 1, ampersand) ∷ s.spans }
      else record s { index = stop + 1 }

  pub parameters_running : ParameterScan → Bool
  parameters_running s = ltb s.index (length text)

  pub parameters_round : ParameterScan → ParameterScan
  unfolding parameter_segment segment_end
  parameters_round s =
      let stop = segment_end ends_parameter s.index (length text) in
      parameter_segment s stop (find_in (λ c. c == b'=') text s.index stop)

  pub parameter_scan : ℕ → ParameterScan
  unfolding parameters_running parameters_round
  parameter_scan index =
      loop (length text + 1) parameters_running parameters_round
        (record { index = index; spans = [] })

  -- Every span that _scrub_urls masks.
  pub url_spans : Bool → List Span
  unfolding url_scan signed_spans parameter_scan
  url_spans cut =
      let s = url_scan cut in
      s.spans
      ++ (signed_spans s.urls ++ (parameter_scan (or_end s.parameters_from (length text))).spans)

  -- _scrub_urls
  unfoldable pub scrub_urls : Bool → Text
  unfolding url_spans
  scrub_urls cut = if contains marker_text text then replace_spans text (url_spans cut) else text
