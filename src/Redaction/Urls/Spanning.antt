-- ===== src/Redaction/Urls/Spanning.antt =====
-- Lemmas on the loops of _scrub_urls and on the spans that it masks.
use ai_voice_agent.Prelude.{
  loop_inv, ℕ, suc, ◌+◌, ◌-◌, ◌≤◌, ◌<◌, ◌≡◌, refl, inl, inr, Bool, true, false, Option, none, some,
  List, [], ◌∷◌, arith, ltb, ◌==◌, if◌then◌else◌, ltb→lt, Bool-cases, Option-cases, length, drop,
  length-drop, All, All-append,
}
use ai_voice_agent.Redaction.Described.{marker}
use ai_voice_agent.Redaction.Keys.{is_sensitive_parameter}
use ai_voice_agent.Redaction.Library.{is_space, Library}
use ai_voice_agent.Redaction.Spans.Covering.{Fits}
use ai_voice_agent.Redaction.Urls.{
  is_at, netloc_end, userinfo_end, marker_text, signed_url_end, url_found, url_running, url_round,
  url_scan, parameters_running, parameter_scan, url_spans, SignedScan, UrlScan, ParameterScan,
  host_start, or_else_at, reaches, parameters_round, colon_end, starts_query, signed_spans,
  signed_running, segment_end, parameter_segment, ends_parameter, at_end, signed_scan, size,
  password_end, signed_here, signed_round, signed_segment, ends_signed_parameter,
}
use ai_voice_agent.Text.{Text, slice, find_in, rfind_in, or_end, starts_with, find_text}
use ai_voice_agent.Text.Find.{find_text_lem}
use ai_voice_agent.Text.Search.{find_in-Found, rfind_in-Found, or_end_bounds}

starts_with-length :
    (needle text : Text) → starts_with needle text ≡ true → length needle ≤ length text
unfolding starts_with
starts_with-length [] text h = omega arith
starts_with-length (c ∷ needle) [] h = cc
starts_with-length (c ∷ needle) (d ∷ text) h =
    let rest : starts_with needle text ≡ true = ground arith in
    omega (arith, starts_with-length needle text rest)

found_le :
    (found : Option ℕ) (start stop : ℕ)
    → start ≤ stop
    → ((k : ℕ) → found ≡ some k → k ≤ stop)
    → or_end found start ≤ stop
found_le none start stop h bound = h
found_le (some k) start stop h bound = bound k refl

either_le :
    (found other : Option ℕ) (stop : ℕ)
    → ((k : ℕ) → found ≡ some k → k ≤ stop)
    → ((k : ℕ) → other ≡ some k → k ≤ stop)
    → (k : ℕ) → or_else_at found other ≡ some k
    → k ≤ stop
either_le none other stop first second k h = second k h
either_le (some j) other stop first second k h = first k h

find_in_le :
    (p : ℕ → Bool) (text : Text) (start stop k : ℕ)
    → find_in p text start stop ≡ some k
    → k ≤ length text
find_in_le p text start stop k h =
    let (low, high, inside, _) = find_in-Found p text start stop k h in omega arith

rfind_in_le :
    (p : ℕ → Bool) (text : Text) (start stop k : ℕ)
    → rfind_in p text start stop ≡ some k
    → k ≤ length text
rfind_in_le p text start stop k h =
    let (low, high, inside, _) = rfind_in-Found p text start stop k h in omega arith

module _ (lib : Library) (text : Text) where
  password_end_le :
      (start token_end : ℕ) (last_at : Option ℕ) (cut : Bool) (colon_at : ℕ)
      → start ≤ length text
      → token_end ≤ length text
      → password_end lib text start token_end last_at cut colon_at ≤ length text
  unfolding password_end size
  password_end_le start token_end last_at cut colon_at low high =
      let reached =
        found_le
          (or_else_at (rfind_in is_at text (netloc_end lib text start) token_end)
            (find_in is_at text token_end (length text)))
          start (length text) low
          (either_le (rfind_in is_at text (netloc_end lib text start) token_end)
            (find_in is_at text token_end (length text)) (length text)
            (rfind_in_le is_at text (netloc_end lib text start) token_end)
            (find_in_le is_at text token_end (length text))) in
      ground arith

  at_end_le :
      (start token_end : ℕ) (last_at : Option ℕ) (cut : Bool) (found : Option ℕ)
      → start ≤ length text
      → token_end ≤ length text
      → ((k : ℕ) → found ≡ some k → k ≤ length text)
      → at_end lib text start token_end last_at cut found ≤ length text
  unfolding at_end
  at_end_le start token_end last_at cut (some k) low high bound = bound k refl
  at_end_le start token_end last_at cut none low high bound = by_colon (
      find_in (λ c. c == b':') text (host_start lib text start)
        (or_end (find_in (λ c. c == b'/') text start (size lib text)) (size lib text)))
    where
      by_colon :
          (colon_at : Option ℕ)
          → colon_end lib text start token_end last_at cut colon_at ≤ length text
      by_colon none = low
      by_colon (some k) = password_end_le start token_end last_at cut k low high

  userinfo_end_le :
      (start token_end : ℕ) (last_at : Option ℕ) (cut : Bool)
      → start ≤ length text
      → token_end ≤ length text
      → userinfo_end lib text start token_end last_at cut ≤ length text
  unfolding userinfo_end
  userinfo_end_le start token_end last_at cut low high = elim (Bool-cases (reaches last_at start)) [
    | inl e ↦ rw e (
        at_end_le start token_end last_at cut
          (rfind_in is_at text start (netloc_end lib text start)) low high
          (rfind_in_le is_at text start (netloc_end lib text start)))
    | inr e ↦ rw e (at_end_le start token_end last_at cut none low high (λ k missing. cc))
  ]

  pub segment_bounds :
      (p : ℕ → Bool) (index region_end : ℕ)
      → index < region_end
      → (index ≤ segment_end lib text p index region_end)
        × (segment_end lib text p index region_end ≤ region_end)
  unfolding segment_end
  segment_bounds p index region_end lt = or_end_bounds p text index region_end (omega arith)

  -- What _signed_url_end has found so far lies in its region.
  Inside : ℕ → SignedScan → Type 0
  Inside region_end s = (k : ℕ) → s.stop ≡ some k → k ≤ region_end

  signed_segment_lem :
      (s : SignedScan) (stop region_end : ℕ) (found : Option ℕ)
      → find_in (λ c. c == b'=') text s.index stop ≡ found
      → s.index ≤ stop
      → stop ≤ region_end
      → Inside region_end s
      → Inside region_end (signed_segment lib text s stop found)
        × ((signed_segment lib text s stop found).index ≡ stop + 1)
  unfolding signed_segment Inside
  signed_segment_lem s stop region_end none e low high h = (h, refl)
  signed_segment_lem s stop region_end (some at) e low high h =
      let (_, before, _, _) = find_in-Found (λ c. c == b'=') text s.index stop at e in
      let (_, bound) = or_end_bounds is_space text (at + 1) stop (omega arith) in
      (
        λ k same.
            let value : or_end (find_in is_space text (at + 1) stop) stop ≡ k = cc in omega arith,
        refl,
      )

  signed_scan_lem :
      (query_from region_end : ℕ)
      → Inside region_end (signed_scan lib text query_from region_end)
        × (signed_running lib text region_end (signed_scan lib text query_from region_end) ≡ false)
  unfolding signed_scan signed_running signed_round Inside
  signed_scan_lem query_from region_end =
      loop_inv (Inside region_end) (λ s. region_end - s.index) (signed_running lib text region_end)
        (signed_round lib text region_end)
        (λ s h go.
          let lt : s.index < region_end = ltb→lt s.index region_end go in
          let (low, high) = segment_bounds ends_signed_parameter s.index region_end lt in
          let stop = segment_end lib text ends_signed_parameter s.index region_end in
          let (kept, moved) =
            signed_segment_lem s stop region_end (find_in (λ c. c == b'=') text s.index stop) refl
              low high h in
          (kept, omega arith))
        (region_end + 1) _ (omega arith) (λ k missing. cc)

  signed_url_end_le :
      (query_from region_end k : ℕ)
      → signed_url_end lib text query_from region_end ≡ some k
      → k ≤ region_end
  unfolding signed_url_end Inside
  signed_url_end_le query_from region_end k h =
      (signed_scan_lem query_from region_end).0 k (ground arith)

  unfoldable pub IsUrlScan : UrlScan → Type 0
  IsUrlScan s =
      (s.position ≤ length text)
      × (s.token_end ≤ length text)
      × Fits (length text) s.spans
      × All (λ url. url.0 ≤ length text) s.urls

  unfoldable pub urls_left : UrlScan → ℕ
  urls_left s = if s.finished then 0 else suc (length text - s.position)

  marker_inside :
      (marker : ℕ) → starts_with marker_text (drop marker text) ≡ true → marker + 3 ≤ length text
  marker_inside marker h =
      omega (arith, starts_with-length marker_text (drop marker text) h, length-drop marker text)

  token_end_le :
      (past start : ℕ)
      → start ≤ length text
      → past ≤ length text
      → (if ltb past start
          then or_end (find_in is_space text start (length text)) (length text)
          else past)
        ≤ length text
  token_end_le past start low high =
      ground (arith, or_end_bounds is_space text start (length text) low)

  pub url_found_lem :
      (cut : Bool) (s : UrlScan) (found : Option ℕ)
      → find_text marker_text text s.position ≡ found
      → s.finished ≡ false
      → IsUrlScan s
      → IsUrlScan (url_found lib text cut s found)
        × (urls_left (url_found lib text cut s found) < urls_left s)
  unfolding url_found IsUrlScan urls_left
  url_found_lem cut s none e going h = (h, ground arith)
  url_found_lem cut s (some marker) e going (position, past, fits, markers) =
      let (low, _, there) = find_text_lem marker_text text s.position marker position e in
      let inside = marker_inside marker there in
      let token = token_end_le s.token_end (marker + 3) inside past in
      let mask =
        userinfo_end_le (marker + 3)
          (if ltb s.token_end (marker + 3)
            then or_end (find_in is_space text (marker + 3) (length text)) (length text)
            else s.token_end)
          (rfind_in is_at text 0 (length text)) cut inside token in
      (
        (
          inside,
          token,
          (mask, fits),
          All-append (λ url. url.0 ≤ length text) s.urls _ markers (omega arith, tt),
        ),
        ground arith,
      )

  pub url_scan_lem :
      (cut : Bool)
      → IsUrlScan (url_scan lib text cut) × (url_running lib text (url_scan lib text cut) ≡ false)
  unfolding url_scan url_running url_round urls_left IsUrlScan
  url_scan_lem cut =
      loop_inv IsUrlScan urls_left (url_running lib text) (url_round lib text cut)
        (λ s h go.
          url_found_lem cut s (find_text marker_text text s.position) refl (ground arith) h)
        (length text + 2) _ (omega arith) (omega arith, omega arith, tt, tt)

  pub segment_found :
      (s : ParameterScan) (stop : ℕ) (found : Option ℕ)
      → find_in (λ c. c == b'=') text s.index stop ≡ found
      → s.index ≤ stop
      → Fits (length text) s.spans
      → Fits (length text) (parameter_segment lib text s stop found).spans
        × (s.index < (parameter_segment lib text s stop found).index)
  unfolding parameter_segment
  segment_found s stop none e low fits = (fits, omega arith)
  segment_found s stop (some at) e low fits =
      let (behind, _, inside, _) = find_in-Found (λ c. c == b'=') text s.index stop at e in
      let (after_it, bound) = or_end_bounds (λ c. c == b'&') text at (length text) (omega arith) in
      elim (Bool-cases (is_sensitive_parameter lib (slice text s.index at))) [
        | inl sensitive ↦ rw sensitive ((bound, fits), omega arith)
        | inr other ↦ rw other (fits, omega arith)
      ]

  pub parameter_scan_lem :
      (index : ℕ)
      → Fits (length text) (parameter_scan lib text index).spans
        × (parameters_running lib text (parameter_scan lib text index) ≡ false)
  unfolding parameter_scan parameters_running parameters_round
  parameter_scan_lem index =
      loop_inv (λ s. Fits (length text) s.spans) (λ s. length text - s.index)
        (parameters_running lib text) (parameters_round lib text)
        (λ s h go.
          let lt : s.index < length text = ltb→lt s.index (length text) go in
          let (low, high) = segment_bounds ends_parameter s.index (length text) lt in
          let stop = segment_end lib text ends_parameter s.index (length text) in
          let (kept, moved) =
            segment_found s stop (find_in (λ c. c == b'=') text s.index stop) refl low h in
          (kept, omega arith))
        (length text + 1) _ (omega arith) tt

  here-Fits :
      (marker after_userinfo token_end region_end : ℕ) (found : Option ℕ)
      → region_end ≤ length text
      → Fits (length text) (signed_here lib text marker after_userinfo token_end region_end found)
  unfolding signed_here
  here-Fits marker after_userinfo token_end region_end none high = tt
  here-Fits marker after_userinfo token_end region_end (some opener) high =
      elim (Option-cases (signed_url_end lib text (opener + 1) region_end)) [
        | inl missing ↦ rw (missing, signed_here) tt
        | inr (k, e) ↦
            let bound = signed_url_end_le (opener + 1) region_end k e in
            rw (e, signed_here) (omega arith, tt)
      ]

  signed_spans-Fits :
      (urls : List (ℕ × ℕ × ℕ))
      → All (λ url. url.0 ≤ length text) urls
      → Fits (length text) (signed_spans lib text urls)
  unfolding signed_spans
  signed_spans-Fits [] markers = tt
  signed_spans-Fits ((marker, after_userinfo, token_end) ∷ []) markers =
      All-append (λ span. span.1 ≤ length text) _ []
        (here-Fits marker after_userinfo token_end (length text)
          (find_in starts_query text after_userinfo (length text)) (omega arith))
        tt
  signed_spans-Fits ((marker, after_userinfo, token_end) ∷ next ∷ urls) markers =
      All-append (λ span. span.1 ≤ length text) _ (signed_spans lib text (next ∷ urls))
        (here-Fits marker after_userinfo token_end next.0
          (find_in starts_query text after_userinfo next.0) markers.1.0)
        (signed_spans-Fits (next ∷ urls) markers.1)

  pub url_spans-Fits : (cut : Bool) → Fits (length text) (url_spans lib text cut)
  unfolding url_spans IsUrlScan
  url_spans-Fits cut =
      let ((_, _, fits, markers), _) = url_scan_lem cut in
      let s = url_scan lib text cut in
      All-append (λ span. span.1 ≤ length text) s.spans _ fits
        (All-append (λ span. span.1 ≤ length text) (signed_spans lib text s.urls) _
          (signed_spans-Fits s.urls markers)
          (parameter_scan_lem (or_end s.parameters_from (length text))).0)
