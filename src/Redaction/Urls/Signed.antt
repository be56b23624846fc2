-- ===== src/Redaction/Urls/Signed.antt =====
-- What the second loop of _scrub_urls hides of a text: signed URLs.
use ai_voice_agent.Prelude.{
  loop_inv, ℕ, zero, suc, ◌+◌, ◌-◌, ◌≤◌, ◌<◌, ◌≡◌, refl, ◌⊎◌, inl, inr, Bool, true, false, ◌||◌,
  Option, none, some, List, [], ◌∷◌, ◌++◌, arith, ltb, ◌==◌, ltb→lt, ==_iff, Bool-cases,
  Option-cases, length, get_elem?, any,
}
use ai_voice_agent.Redaction.Keys.{is_signing_parameter}
use ai_voice_agent.Redaction.Library.{is_space, Library}
use ai_voice_agent.Redaction.Spans.Covering.{covered, covered-append}
use ai_voice_agent.Redaction.Urls.{
  starts_query, ends_signed_parameter, segment_end, signed_segment, signed_running, signed_round,
  signed_scan, signed_url_end, scheme_start, signed_here, signed_spans, SignedScan, reaches,
}
use ai_voice_agent.Redaction.Urls.Parameters.{or_end_first, or_end_behind}
use ai_voice_agent.Text.{Text, slice, find_in, or_end}
use ai_voice_agent.Text.Find.{find_in_first, none_in_slice}
use ai_voice_agent.Text.Search.{find_in-Found, or_end_bounds}

abbrev pub ends_signed_name : ℕ → Bool
ends_signed_name c = ends_signed_parameter c || c == b'='

-- A signing parameter of a query: its name is text[a:e], which begins at the start of the query or
-- behind a separator, and j stands at its "=" or in its value.
unfoldable pub IsSigned : Library → Text → ℕ → ℕ → ℕ → ℕ → ℕ → Type 0
IsSigned lib text start region_end a e j =
    ((a ≡ start)
      ⊎ ((b : ℕ) × (c : ℕ) × (suc b ≡ a)
          × (start ≤ b)
          × (get_elem? text b ≡ some c)
          × (ends_signed_parameter c ≡ true)))
    × (a ≤ e)
    × (any ends_signed_name (slice text a e) ≡ false)
    × (get_elem? text e ≡ some b'=')
    × (is_signing_parameter lib (slice text a e) ≡ true)
    × (e ≤ j)
    × (j < region_end)
    × (any (λ c. ends_signed_parameter c || is_space c) (slice text e (suc j)) ≡ false)

module _ (lib : Library) (text : Text) (start region_end a e j : ℕ)
    (signed_here_too : IsSigned lib text start region_end a e j) where
  -- The loop has not passed the parameter, or the end that it has found is behind the position.
  Reaches : SignedScan → Type 0
  Reaches s =
      (s.index ≤ a) ⊎ ((k : ℕ) × (s.stop ≡ some k) × (s.signed ≡ true) × (j < k) × (k ≤ s.index))

  no_separator :
      (n : ℕ) (c : ℕ) → a ≤ n → n ≤ j → get_elem? text n ≡ some c → ends_signed_parameter c ≡ false
  unfolding IsSigned
  no_separator n c low high there =
      let (_, _, plain, _, _, _, _, value) = signed_here_too in
      elim (Bool-cases (ltb n e)) [
        | inl lt ↦
            let fails = none_in_slice ends_signed_name text a e n plain low (ltb→lt n e lt) there in
            ground arith
        | inr ge ↦
            let fails =
              none_in_slice (λ d. ends_signed_parameter d || is_space d) text e (suc j) n value
                (ground arith) (omega arith) there in
            ground arith
      ]

  at_signed : (s : SignedScan) → s.index ≡ a → Reaches (signed_round lib text region_end s)
  unfolding Reaches signed_round signed_segment segment_end IsSigned
  at_signed s same =
      let (_, le, plain, at_equals, signing, behind, inside, value) = signed_here_too in
      let stop = or_end (find_in ends_signed_parameter text s.index region_end) region_end in
      let past : j < stop =
        or_end_behind ends_signed_parameter text s.index region_end j inside
          (λ n c low high there. no_separator n c (omega arith) high there) in
      let (k, found, first) =
        find_in_first (λ c. c == b'=') text s.index stop e (omega arith) (omega arith) at_equals
          refl in
      let (low, _, _, (c, there, passes)) =
        find_in-Found (λ c. c == b'=') text s.index stop k found in
      let reached : j < or_end (find_in is_space text (e + 1) stop) stop =
        or_end_behind is_space text (e + 1) stop j past (λ n d after upto here.
          let fails =
            none_in_slice (λ d'. ends_signed_parameter d' || is_space d') text e (suc j) n value
              (omega arith) (omega arith) here in
          ground arith) in
      let (_, bound) = or_end_bounds is_space text (e + 1) stop (omega arith) in
      let known : is_signing_parameter lib (slice text s.index e) ≡ true = rw same signing in
      elim (Bool-cases (k == e)) [
        | inl is_first ↦
            let at_e : k ≡ e = (==_iff k e).0 is_first in
            rw (found, at_e, known)
              (inr (
                or_end (find_in is_space text (e + 1) stop) stop,
                refl,
                ground arith,
                reached,
                omega arith,
              ))
        | inr before ↦
            let fails =
              none_in_slice ends_signed_name text a e k plain (omega arith) (ground arith) there in
            absurd (ground arith)
      ]

  before_signed :
      (s : SignedScan)
      → start ≤ s.index
      → s.index < a
      → Reaches (signed_round lib text region_end s)
  unfolding Reaches signed_round signed_segment segment_end IsSigned
  before_signed s low lt =
      let (begins, le, _, _, _, behind, inside, _) = signed_here_too in
      elim begins [
        | inl same ↦ absurd (omega arith)
        | inr (b, c, next, from, there, separates) ↦
            let stop = or_end (find_in ends_signed_parameter text s.index region_end) region_end in
            let stops : stop ≤ b =
              or_end_first ends_signed_parameter text s.index region_end b (omega arith)
                (omega arith) there separates in
            elim (Option-cases (find_in (λ c'. c' == b'=') text s.index stop)) [
              | inl missing ↦ rw missing (inl (omega arith))
              | inr (k, found) ↦ rw found (inl (omega arith))
            ]
      ]

  after_signed :
      (s : SignedScan) (stop : ℕ) (found : Option ℕ) (k : ℕ)
      → find_in (λ c. c == b'=') text s.index stop ≡ found
      → s.index ≤ stop
      → s.stop ≡ some k
      → s.signed ≡ true
      → j < k
      → k ≤ s.index
      → Reaches (signed_segment lib text s stop found)
  unfolding Reaches signed_segment
  after_signed s stop none k e' low at_k signed past le = inr (k, at_k, signed, past, omega arith)
  after_signed s stop (some n) k e' low at_k signed past le =
      let (from, inner, _, _) = find_in-Found (λ c. c == b'=') text s.index stop n e' in
      let (front, back) = or_end_bounds is_space text (n + 1) stop (omega arith) in
      inr (
        or_end (find_in is_space text (n + 1) stop) stop,
        refl,
        rw signed refl,
        omega arith,
        omega arith,
      )

  segment_moves :
      (s : SignedScan) (stop : ℕ) (found : Option ℕ)
      → s.index ≤ stop
      → s.index < (signed_segment lib text s stop found).index
  unfolding signed_segment
  segment_moves s stop none low = omega arith
  segment_moves s stop (some k) low = omega arith

  round-Reaches :
      (s : SignedScan)
      → start ≤ s.index
      → s.index < region_end
      → Reaches s
      → (s.index < (signed_round lib text region_end s).index)
        × Reaches (signed_round lib text region_end s)
  unfolding signed_round segment_end Reaches
  round-Reaches s low lt reaches =
      let stop = or_end (find_in ends_signed_parameter text s.index region_end) region_end in
      let (front, _) = or_end_bounds ends_signed_parameter text s.index region_end (omega arith) in
      let found = find_in (λ c. c == b'=') text s.index stop in
      let reached : Reaches (signed_round lib text region_end s) = elim reaches [
        | inr (k, at_k, signed, past, le) ↦
            after_signed s stop found k refl front at_k signed past le
        | inl le ↦ elim (Bool-cases (s.index == a)) [
          | inl same ↦ at_signed s ((==_iff s.index a).0 same)
          | inr other ↦ before_signed s low (ground arith)
        ]
      ] in
      (segment_moves s stop found front, reached)

  -- The end of the signed URL lies behind every position of a signing parameter.
  pub signed_url_end-reaches :
      (k : ℕ) × (signed_url_end lib text start region_end ≡ some k) × (j < k)
  unfolding signed_url_end signed_scan signed_running Reaches IsSigned
  signed_url_end-reaches =
      let (begins, le, _, _, _, behind, inside, _) = signed_here_too in
      let from_start : start ≤ a = elim begins [
        | inl same ↦ omega arith
        | inr (b, c, next, from, _, _) ↦ omega arith
      ] in
      let ((_, reaches), ended) =
        loop_inv (λ s. (start ≤ s.index) × Reaches s) (λ s. region_end - s.index)
          (signed_running lib text region_end) (signed_round lib text region_end)
          (λ s (low, reaches) go.
            let lt : s.index < region_end = ltb→lt s.index region_end go in
            let (moved, kept) = round-Reaches s low lt reaches in
            ((omega arith, kept), omega arith))
          (region_end + 1) (record { index = start; signed = false; stop = none }) (omega arith)
          (omega arith, inl from_start) in
      elim reaches [
        | inl stuck ↦ absurd (ground arith)
        | inr (k, at_k, signed, past, _) ↦ (k, rw (signed, at_k) refl, past)
      ]

scheme_start_le : (lib : Library) (text : Text) (m : ℕ) → scheme_start lib text m ≤ m
unfolding scheme_start
scheme_start_le lib text zero = omega arith
scheme_start_le lib text (suc m) = let before = scheme_start_le lib text m in ground arith

-- Where the query parameters of a URL end at the latest: at the next "://", or with the text.
abbrev pub region_of : Text → List (ℕ × ℕ × ℕ) → ℕ
region_of text [] = length text
region_of text (next ∷ urls) = next.0

here-covers :
    (lib : Library) (text : Text) (m after token_end region_end opener k i : ℕ)
    → signed_url_end lib text (opener + 1) region_end ≡ some k
    → m ≤ i
    → i < k
    → covered (signed_here lib text m after token_end region_end (some opener)) i ≡ true
unfolding signed_here
here-covers lib text m after token_end region_end opener k i ends low high =
    let scheme = scheme_start_le lib text m in rw (ends, covered) (ground arith)

-- A signed URL is hidden from its "://" to its end, wherever it stands among the URLs.
pub signed_spans-covers :
    (lib : Library) (text : Text) (front rest : List (ℕ × ℕ × ℕ)) (m after token_end : ℕ)
    (opener k i : ℕ)
    → find_in starts_query text after (region_of text rest) ≡ some opener
    → signed_url_end lib text (opener + 1) (region_of text rest) ≡ some k
    → m ≤ i
    → i < k
    → covered (signed_spans lib text (front ++ (m, after, token_end) ∷ rest)) i ≡ true
unfolding signed_spans
signed_spans-covers lib text [] [] m after token_end opener k i query ends low high =
    let here = here-covers lib text m after token_end (length text) opener k i ends low high in
    rw (query, covered-append _ (signed_spans lib text []) i, here) refl
signed_spans-covers lib text [] (next ∷ rest) m after token_end opener k i query ends low high =
    let here = here-covers lib text m after token_end next.0 opener k i ends low high in
    rw (query, covered-append _ (signed_spans lib text (next ∷ rest)) i, here) refl
signed_spans-covers lib text (url ∷ front) rest m after token_end opener k i query ends low high =
    let further =
      signed_spans-covers lib text front rest m after token_end opener k i query ends low high in
    rw (covered-append _ (signed_spans lib text (front ++ (m, after, token_end) ∷ rest)) i, further)
      (ground arith)
