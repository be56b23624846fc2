-- ===== src/Redaction/Urls/Parameters.antt =====
-- What the third loop of _scrub_urls hides of a text.
use ai_voice_agent.Prelude.{
  loop_inv, ℕ, suc, ◌+◌, ◌-◌, ◌≤◌, ◌<◌, ◌≡◌, refl, sym, ◌∙◌, ◌⊎◌, inl, inr, Bool, true, false, ◌||◌,
  Option, none, some, arith, ltb, leb, ◌==◌, ltb→lt, ==_iff, Bool-cases, Option-cases, length,
  get_elem?, any,
}
use ai_voice_agent.Redaction.Keys.{is_sensitive_parameter}
use ai_voice_agent.Redaction.Library.{Library}
use ai_voice_agent.Redaction.Spans.Covering.{covered}
use ai_voice_agent.Redaction.Urls.{
  ends_parameter, segment_end, parameter_segment, parameters_running, parameters_round,
  parameter_scan, ParameterScan,
}
use ai_voice_agent.Redaction.Urls.Spanning.{segment_bounds}
use ai_voice_agent.Text.{Text, slice, find_in, or_end}
use ai_voice_agent.Text.Find.{find_in_first, none_in_slice}
use ai_voice_agent.Text.Search.{find_in-Found, or_end_bounds}

-- The first of them stands at m at the latest.
pub or_end_first :
    (p : ℕ → Bool) (text : Text) (start stop m : ℕ) {c : ℕ}
    → start ≤ m
    → m < stop
    → get_elem? text m ≡ some c
    → p c ≡ true
    → or_end (find_in p text start stop) stop ≤ m
or_end_first p text start stop m low high h passes =
    let (k, found, le) = find_in_first p text start stop m low high h passes in rw found le

-- None of them stands up to m.
pub or_end_behind :
    (p : ℕ → Bool) (text : Text) (start stop m : ℕ)
    → m < stop
    → ((n : ℕ) (c : ℕ) → start ≤ n → n ≤ m → get_elem? text n ≡ some c → p c ≡ false)
    → m < or_end (find_in p text start stop) stop
or_end_behind p text start stop m high absent = elim (Option-cases (find_in p text start stop)) [
  | inl missing ↦ rw missing high
  | inr (k, found) ↦
      let (low, _, _, (c, there, passes)) = find_in-Found p text start stop k found in
      elim (Bool-cases (ltb m k)) [
        | inl e ↦ rw found (ltb→lt m k e)
        | inr e ↦ let fails = absent k c low (ground arith) there in absurd (cc)
      ]
]

-- A character that ends the name of a parameter, or is in no name.
abbrev pub ends_name : ℕ → Bool
ends_name c = ends_parameter c || c == b'='

-- A position j in the value of a sensitive parameter. Its name is text[a:e], which begins at the
-- start of the parameters or behind a separator in them, and its value goes to the next "&".
unfoldable pub InParameter : Library → Text → ℕ → ℕ → ℕ → ℕ → Type 0
InParameter lib text start a e j =
    ((a ≡ start)
      ⊎ ((b : ℕ) × (c : ℕ) × (suc b ≡ a)
          × (start ≤ b)
          × (get_elem? text b ≡ some c)
          × (ends_parameter c ≡ true)))
    × (a ≤ e)
    × (any ends_name (slice text a e) ≡ false)
    × (get_elem? text e ≡ some b'=')
    × (is_sensitive_parameter lib (slice text a e) ≡ true)
    × (e < j)
    × (j < length text)
    × (any (λ c. c == b'&') (slice text e (suc j)) ≡ false)

module _ (lib : Library) (text : Text) (start a e j : ℕ)
    (secret : InParameter lib text start a e j) where
  segment_moves :
      (s : ParameterScan) (stop : ℕ) (found : Option ℕ)
      → find_in (λ c. c == b'=') text s.index stop ≡ found
      → s.index ≤ stop
      → s.index < (parameter_segment lib text s stop found).index
  unfolding parameter_segment
  segment_moves s stop none e' low = omega arith
  segment_moves s stop (some k) e' low =
      let (from, _, inside, _) = find_in-Found (λ c. c == b'=') text s.index stop k e' in
      let (after_it, _) = or_end_bounds (λ c. c == b'&') text k (length text) (omega arith) in
      elim (Bool-cases (is_sensitive_parameter lib (slice text s.index k))) [
        | inl sensitive ↦ rw sensitive (omega arith)
        | inr other ↦ rw other (omega arith)
      ]

  -- The loop has not passed the parameter, or has hidden the position.
  Covers : ParameterScan → Type 0
  Covers s = (covered s.spans j ≡ true) ⊎ (s.index ≤ a)

  -- Nothing separates the name, and no "&" stands from its start to the position.
  name_whole :
      (n : ℕ) (c : ℕ) → a ≤ n → n ≤ e → get_elem? text n ≡ some c → ends_parameter c ≡ false
  unfolding InParameter
  name_whole n c low high there =
      let (_, _, plain, at_equals, _, _, _, _) = secret in
      elim (Bool-cases (ltb n e)) [
        | inl lt ↦
            let fails = none_in_slice ends_name text a e n plain low (ltb→lt n e lt) there in
            ground arith
        | inr ge ↦
            let same : n ≡ e = ground arith in
            let found : some c ≡ some b'=' = sym there ∙ (rw same at_equals) in
            let is_equals : c ≡ 61 = ground arith in rw is_equals refl
      ]

  no_ampersand : (n : ℕ) (c : ℕ) → a ≤ n → n ≤ j → get_elem? text n ≡ some c → (c == b'&') ≡ false
  unfolding InParameter
  no_ampersand n c low high there =
      let (_, _, _, _, _, _, _, plain) = secret in
      elim (Bool-cases (leb n e)) [
        | inl le ↦ let fails = name_whole n c low (ground arith) there in ground arith
        | inr gt ↦
            none_in_slice (λ d. d == b'&') text e (suc j) n plain (ground arith) (omega arith) there
      ]

  -- At the parameter itself, the loop hides its value.
  at_parameter : (s : ParameterScan) → s.index ≡ a → Covers (parameters_round lib text s)
  unfolding Covers parameters_round parameter_segment segment_end InParameter
  at_parameter s same =
      let (_, le, plain, at_equals, sensitive, behind, inside, _) = secret in
      let stop = or_end (find_in ends_parameter text s.index (length text)) (length text) in
      let past : e < stop =
        or_end_behind ends_parameter text s.index (length text) e (omega arith)
          (λ n c low high there. name_whole n c (omega arith) high there) in
      let (k, found, first) =
        find_in_first (λ c. c == b'=') text s.index stop e (omega arith) past at_equals refl in
      let (low, _, _, (c, there, passes)) =
        find_in-Found (λ c. c == b'=') text s.index stop k found in
      let value : j < or_end (find_in (λ c. c == b'&') text e (length text)) (length text) =
        or_end_behind (λ c. c == b'&') text e (length text) j inside
          (λ n c low high there. no_ampersand n c (omega arith) high there) in
      let known : is_sensitive_parameter lib (slice text s.index e) ≡ true = rw same sensitive in
      elim (Bool-cases (k == e)) [
        | inl is_first ↦
            let at_e : k ≡ e = (==_iff k e).0 is_first in
            rw (found, at_e, known) (inl (ground arith))
        | inr before ↦
            let fails =
              none_in_slice ends_name text a e k plain (omega arith) (ground arith) there in
            absurd (ground arith)
      ]

  -- A sensitive parameter before it is passed, or its value holds the position too.
  before_found :
      (s : ParameterScan) (stop k : ℕ)
      → k < stop
      → stop < a
      → Covers (parameter_segment lib text s stop (some k))
  unfolding Covers parameter_segment InParameter
  before_found s stop k low high =
      let (_, le, _, _, _, behind, inside, _) = secret in
      let end = or_end (find_in (λ c. c == b'&') text k (length text)) (length text) in
      elim (Bool-cases (is_sensitive_parameter lib (slice text s.index k))) [
        | inr e ↦ rw e (inr (omega arith))
        | inl e ↦ elim (Bool-cases (ltb end a)) [
          | inl passed ↦ rw e (inr (ground arith))
          | inr reaching ↦ elim (Option-cases (find_in (λ c. c == b'&') text k (length text))) [
            | inl missing ↦ rw (e, missing) (inl (ground arith))
            | inr (m, found) ↦
                let (_, _, _, (c, there, passes)) =
                  find_in-Found (λ c. c == b'&') text k (length text) m found in
                let far : a ≤ m = ground arith in
                elim (Bool-cases (ltb j m)) [
                  | inl holds_it ↦ rw (e, found) (inl (ground arith))
                  | inr early ↦ let fails = no_ampersand m c far (ground arith) there in absurd (cc)
                ]
          ]
        ]
      ]

  before_parameter :
      (s : ParameterScan) → start ≤ s.index → s.index < a → Covers (parameters_round lib text s)
  unfolding Covers parameters_round segment_end InParameter parameter_segment
  before_parameter s low lt =
      let (begins, le, _, _, _, behind, inside, _) = secret in
      elim begins [
        | inl same ↦ absurd (omega arith)
        | inr (b, c, next, from, there, separates) ↦
            let stop = or_end (find_in ends_parameter text s.index (length text)) (length text) in
            let stops : stop ≤ b =
              or_end_first ends_parameter text s.index (length text) b (omega arith) (omega arith)
                there separates in
            elim (Option-cases (find_in (λ c. c == b'=') text s.index stop)) [
              | inl missing ↦ rw missing (inr (omega arith))
              | inr (k, found) ↦
                  let (_, inner, _, _) = find_in-Found (λ c. c == b'=') text s.index stop k found in
                  rw found (before_found s stop k inner (omega arith))
            ]
      ]

  keeps_hidden :
      (s : ParameterScan) (stop : ℕ) (found : Option ℕ)
      → covered s.spans j ≡ true
      → covered (parameter_segment lib text s stop found).spans j ≡ true
  unfolding parameter_segment
  keeps_hidden s stop none hidden = hidden
  keeps_hidden s stop (some k) hidden =
      elim (Bool-cases (is_sensitive_parameter lib (slice text s.index k))) [
        | inl e ↦ rw e (ground arith)
        | inr e ↦ rw e hidden
      ]

  round-Covers :
      (s : ParameterScan) → start ≤ s.index → Covers s → Covers (parameters_round lib text s)
  unfolding Covers parameters_round
  round-Covers s low (inl hidden) = inl (keeps_hidden s _ _ hidden)
  round-Covers s low (inr le) = elim (Bool-cases (s.index == a)) [
    | inl same ↦ at_parameter s ((==_iff s.index a).0 same)
    | inr other ↦ before_parameter s low (ground arith)
  ]

  pub parameter_scan-hides : covered (parameter_scan lib text start).spans j ≡ true
  unfolding parameter_scan parameters_running parameters_round Covers InParameter
  parameter_scan-hides =
      let (begins, le, _, _, _, behind, inside, _) = secret in
      let from_start : start ≤ a = elim begins [
        | inl same ↦ omega arith
        | inr (b, c, next, from, _, _) ↦ omega arith
      ] in
      let ((_, covers), ended) =
        loop_inv (λ s. (start ≤ s.index) × Covers s) (λ s. length text - s.index)
          (parameters_running lib text) (parameters_round lib text)
          (λ s (low, covers) go.
            let lt : s.index < length text = ltb→lt s.index (length text) go in
            let (front, back) = segment_bounds lib text ends_parameter s.index (length text) lt in
            let stop = segment_end lib text ends_parameter s.index (length text) in
            let moved =
              segment_moves s stop (find_in (λ c. c == b'=') text s.index stop) refl front in
            ((omega arith, round-Covers s low covers), omega arith))
          (length text + 1) _ (omega arith) (omega arith, inr from_start) in
      elim covers [ inl hidden ↦ hidden | inr stuck ↦ absurd (ground arith) ]
