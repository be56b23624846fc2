-- ===== src/Redaction/Values/Located.antt =====
-- Lemmas on _locate_value, its loops and its result.
use ai_voice_agent.Prelude.{
  loop_inv, ℕ, suc, ◌+◌, ◌-◌, ◌≤◌, ◌<◌, ◌≡◌, refl, inl, inr, Bool, true, false, Option, none, some,
  arith, ◌==◌, if◌then◌else◌, Option-cases, length, get_elem?, get_or,
}
use ai_voice_agent.Redaction.Library.{is_space}
use ai_voice_agent.Redaction.Markers.{backslash}
use ai_voice_agent.Redaction.Quotes.Escapes.{escaped_space_inside}
use ai_voice_agent.Redaction.Values.{
  key_tail, skip_blanks, locate_value, Introduction, TailBranch, KeyTail, no_tail, escapes, trailer,
  subscript, skip_running, tail_step, tail_branch, tail_round, tail_running, max_subscript_length,
  after_subscript, introduction, blank_width, is_backslash,
}
use ai_voice_agent.Text.{Text, codes, skip_while, char_in}
use ai_voice_agent.Text.Search.{
  get_elem?-lt, skip_while_bounds, Found, find_in-Found, skip_while_gt,
}

module _ (text : Text) where
  -- One step of whitespace stays inside the text.
  blank_width_inside : (i : ℕ) → i < length text → i + blank_width text i ≤ length text
  unfolding blank_width
  blank_width_inside i lt = ground (arith, escaped_space_inside text i)

  module _ (from' : ℕ) (inside : from' ≤ length text) where
    Between : ℕ → Type 0
    Between i = (from' ≤ i) × (i ≤ length text)

    skip_blanks_lem :
        Between (skip_blanks text from') × (skip_running text (skip_blanks text from') ≡ false)
    unfolding skip_blanks skip_running Between
    skip_blanks_lem =
        loop_inv Between (λ i. length text - i) (skip_running text) (λ i. i + blank_width text i)
          (λ i h go. ground (arith, blank_width_inside i)) (length text + 1) from' (omega arith)
          (omega arith)

    IsKeyTail : KeyTail → Type 0
    unfolding Between
    IsKeyTail s = Between s.index

    abbrev left : KeyTail → ℕ
    left s = if s.finished then 0 else suc (length text - s.index)

    after_subscript_lem :
        (s : KeyTail) (stop : ℕ) (p : ℕ → Bool) (found : Option ℕ)
        → IsKeyTail s
        → s.finished ≡ false
        → s.index < length text
        → ((k : ℕ) → found ≡ some k → Found p text (s.index + 1) stop k)
        → IsKeyTail (after_subscript s found) × (left (after_subscript s found) < left s)
    unfolding IsKeyTail after_subscript
    after_subscript_lem s stop p none h going lt where_found = ground arith
    after_subscript_lem s stop p (some k) h going lt where_found =
        let (low, high, in_text, c) = where_found k refl in ground arith

    tail_step_lem :
        (b : TailBranch) (s : KeyTail)
        → IsKeyTail s
        → s.finished ≡ false
        → s.index < length text
        → (b ≡ escapes → s.index < skip_while is_backslash text s.index (length text))
        → IsKeyTail (tail_step text b s) × (left (tail_step text b s) < left s)
    unfolding IsKeyTail tail_step
    tail_step_lem no_tail s h going lt moves = ground arith
    tail_step_lem escapes s h going lt moves =
        let further = moves refl in
        let bounds = skip_while_bounds is_backslash text s.index (length text) (omega arith) in
        ground arith
    tail_step_lem (trailer quote) s h going lt moves = ground arith
    tail_step_lem (subscript closer) s h going lt moves =
        after_subscript_lem s (s.index + 1 + max_subscript_length) (λ c. c == closer) _ h going lt
          (λ k e. find_in-Found (λ c. c == closer) text (s.index + 1) _ k e)

    tail_branch_escapes :
        (s : KeyTail) → tail_branch text s ≡ escapes → (get_or text s.index 0 == backslash) ≡ true
    unfolding tail_branch
    tail_branch_escapes s e = ground arith

    tail_running_lem :
        (s : KeyTail) → tail_running text s ≡ true → (s.finished ≡ false) × (s.index < length text)
    unfolding tail_running
    tail_running_lem s go = ground arith

    key_tail_lem :
        IsKeyTail (key_tail text from') × (tail_running text (key_tail text from') ≡ false)
    unfolding key_tail tail_round IsKeyTail
    key_tail_lem =
        loop_inv IsKeyTail left (tail_running text) (tail_round text)
          (λ s h go.
            let (going, lt) = tail_running_lem s go in
            tail_step_lem (tail_branch text s) s h going lt (λ e.
              skip_while_gt is_backslash text s.index (length text) lt lt
                (tail_branch_escapes s e)))
          (length text + 2) _ (omega arith) (omega arith)

char_in_inside : (set text : Text) (i : ℕ) → char_in set text i ≡ true → i < length text
unfolding char_in
char_in_inside set text i h = elim (Option-cases (get_elem? text i)) [
  | inl missing ↦ absurd (ground arith)
  | inr (c, e) ↦ get_elem?-lt text i e
]

introduction_bounds :
    (text : Text) (key_start : ℕ) (closed_quote : Bool) (index after value : ℕ)
    (kind : Introduction)
    → index ≤ after
    → introduction text key_start closed_quote index after ≡ some (value, kind)
    → (index ≤ value) × (value ≤ length text)
unfolding introduction
introduction_bounds text key_start closed_quote index after value kind le h = ground (
  arith,
  skip_while_bounds is_space text (after + 1) (length text),
  char_in_inside (codes ">") text (after + 1),
  char_in_inside (codes "=") text (after + 1),
)

-- The value of a key starts behind the key, inside the text or at its end.
pub locate_value_bounds :
    (text : Text) (key_start key_end value : ℕ) (kind : Introduction)
    → key_end ≤ length text
    → locate_value text key_start key_end ≡ some (value, kind)
    → (key_end ≤ value) × (value ≤ length text)
unfolding locate_value IsKeyTail Between
locate_value_bounds text key_start key_end value kind inside h =
    let tail' = key_tail text key_end in
    let (low, high) = (key_tail_lem text key_end inside).0 in
    let (on, high') = (skip_blanks_lem text tail'.index high).0 in
    let bounds =
      introduction_bounds text key_start tail'.closed_quote tail'.index
        (skip_blanks text tail'.index) value kind on h in
    omega arith
