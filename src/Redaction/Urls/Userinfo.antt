-- ===== src/Redaction/Urls/Userinfo.antt =====
-- Lemmas on _userinfo_end.
use ai_voice_agent.Prelude.{ℕ, ◌≤◌, ◌<◌, ◌≡◌, refl, Bool, true, some, arith, leb, length, get_elem?}
use ai_voice_agent.Redaction.Library.{Library}
use ai_voice_agent.Redaction.Urls.{netloc_end, userinfo_end, is_at, at_end}
use ai_voice_agent.Text.{Text, rfind_in}
use ai_voice_agent.Text.Find.{rfind_in_ge}
use ai_voice_agent.Text.Search.{get_elem?-lt, rfind_in-Found}

module _ (lib : Library) (text : Text) (start token_end : ℕ) (cut : Bool) where
  -- For every "@" of a URL's authority, at or behind its start and before the next "/", "?" or "#":
  -- where the userinfo is said to end is at that "@" or behind it, is itself an "@", and still lies in
  -- the authority; so the mask from the start reaches the last of them, cut text or not.
  pub userinfo_end_covers :
      (k : ℕ)
      → start ≤ k
      → k < netloc_end lib text start
      → get_elem? text k ≡ some b'@'
      → (k ≤ userinfo_end lib text start token_end (rfind_in is_at text 0 (length text)) cut)
        × (userinfo_end lib text start token_end (rfind_in is_at text 0 (length text)) cut
            < netloc_end lib text start)
        × (get_elem? text
              (userinfo_end lib text start token_end (rfind_in is_at text 0 (length text)) cut)
            ≡ some b'@')
  unfolding userinfo_end at_end
  userinfo_end_covers k low high here =
      let (j, last, le) =
        rfind_in_ge is_at text 0 (length text) k (omega arith) (get_elem?-lt text k here) here
          refl in
      let (m, found, le') =
        rfind_in_ge is_at text start (netloc_end lib text start) k low high here refl in
      let reached : leb start j ≡ true = ground arith in
      let (low', high', inside, (c, there, is_it)) =
        rfind_in-Found is_at text start (netloc_end lib text start) m found in
      let same : c ≡ 64 = ground arith in rw (last, reached, found) (le', high', rw same at there)
