-- ===== src/Redaction/Urls/Hiding.antt =====
-- What _scrub_urls hides of a text, said of the text and not of the spans it computes.
use ai_voice_agent.Prelude.{
  ℕ, ◌+◌, ◌≤◌, ◌<◌, ◌≡◌, ◌⊎◌, Bool, true, false, some, List, ◌∷◌, ◌++◌, get_elem?, drop,
}
use ai_voice_agent.Redaction.Library.{Library}
use ai_voice_agent.Redaction.Spans.Covering.{covered}
use ai_voice_agent.Redaction.Urls.{starts_query, netloc_end, marker_text, url_scan, UrlScan}
use ai_voice_agent.Redaction.Urls.Parameters.{InParameter}
use ai_voice_agent.Redaction.Urls.Signed.{IsSigned, region_of}
use ai_voice_agent.Text.{Text, find_in, starts_with}

-- A "://" at m, an "@" of its authority at k, and a position between them.
module _ (lib : Library) (text : Text) (cut : Bool) (m i k : ℕ)
    (marked_here : starts_with marker_text (drop m text) ≡ true) (low : m + 3 ≤ i) (high : i < k)
    (in_authority : k < netloc_end lib text (m + 3)) (at_here : get_elem? text k ≡ some b'@') where
  -- The loop is still before m, or has hidden the position.
  HidesFrom : UrlScan → Type 0
  HidesFrom s = (covered s.spans i ≡ true) ⊎ ((s.position ≤ m) × (s.finished ≡ false))

-- A position i between a "://" of the text and an "@" at k in the authority behind it.
unfoldable pub InUserinfo : Library → Text → ℕ → Type 0
InUserinfo lib text i =
    (m : ℕ) × (k : ℕ) × (starts_with marker_text (drop m text) ≡ true)
    × (m + 3 ≤ i)
    × (i < k)
    × (k < netloc_end lib text (m + 3))
    × (get_elem? text k ≡ some b'@')

-- A position of a sensitive parameter's value, where parameters begin behind the first "?" or "#" after
-- the userinfo of a URL.
unfoldable pub InSecretParameter : Library → Text → Bool → ℕ → Type 0
InSecretParameter lib text cut i =
    (start : ℕ) × (a : ℕ) × (e : ℕ) × ((url_scan lib text cut).parameters_from ≡ some start)
    × InParameter lib text start a e i

-- A position of a URL with a signing parameter in its query, from its "://" up to a place j at the "="
-- or in the value of that parameter.
unfoldable pub InSignedUrl : Library → Text → Bool → ℕ → Type 0
InSignedUrl lib text cut i =
    (front : List (ℕ × ℕ × ℕ)) × (rest : List (ℕ × ℕ × ℕ)) × (m : ℕ) × (after : ℕ) × (token_end : ℕ)
    × (opener : ℕ) × (a : ℕ) × (e : ℕ) × (j : ℕ) × ((url_scan lib text cut).urls
        ≡ front ++ (m, after, token_end) ∷ rest)
    × (find_in starts_query text after (region_of text rest) ≡ some opener)
    × IsSigned lib text (opener + 1) (region_of text rest) a e j
    × (m ≤ i)
    × (i ≤ j)
