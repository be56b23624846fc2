-- ===== src/Redaction/Results.antt =====
-- redaction.py: what a call's result is when it returns, one rule for each way to build a call.
use ai_voice_agent.Prelude.{
  Outcome, returned, raised, returned-injective, ◌≡◌, refl, sym, Bool, true, false, if◌then◌else◌,
}
use ai_voice_agent.Redaction.Budgets.{
  ◌>>=◌, Call, pure, raise, continue_with, ◌>>◌, catch_as, caught, with_budget, Budget,
}

pub record Ensures {A : Type 0} (P : A → Type 0) (m : Call A) : Type 0 where
  pub at : (b : Budget) (a : A) → (m b).0 ≡ returned a → P a

module _ {A : Type 0} {P : A → Type 0} where
  pub Ensures-pure : (a : A) → P a → Ensures P (pure a)
  unfolding pure
  Ensures-pure a h = record {
    at = λ b a' e. let same : a ≡ a' = returned-injective e in rw (sym same) h;
  }

  pub Ensures-raise : Ensures P raise
  unfolding raise
  Ensures-raise = record { at = λ b a e. cc }

  pub Ensures-if :
      (t : Bool) (m n : Call A)
      → (t ≡ true → Ensures P m)
      → (t ≡ false → Ensures P n)
      → Ensures P (if t then m else n)
  Ensures-if true m n hm hn = hm refl
  Ensures-if false m n hm hn = hn refl

  pub Ensures-with_budget :
      (f : Budget → Call A) → ((b : Budget) → Ensures P (f b)) → Ensures P (with_budget f)
  unfolding with_budget
  Ensures-with_budget f h = record { at = λ b a e. (h b).at b a e }

  catch-at :
      (a : A) (r : Outcome A × Budget) (c : A)
      → P a
      → ((d : A) → r.0 ≡ returned d → P d)
      → (catch_as a r).0 ≡ returned c
      → P c
  catch-at a (returned d, b) c h hr e = hr c e
  catch-at a (raised, b) c h hr e = let same : a ≡ c = returned-injective e in rw (sym same) h

  pub Ensures-caught : (a : A) (m : Call A) → P a → Ensures P m → Ensures P (caught a m)
  unfolding caught
  Ensures-caught a m h hm = record { at = λ b c e. catch-at a (m b) c h (hm.at b) e }

module _ {A B : Type 0} {P : B → Type 0} where
  continue-at :
      (Q : A → Type 0) (r : Outcome A × Budget) (f : A → Call B) (c : B)
      → ((a : A) → r.0 ≡ returned a → Q a)
      → ((a : A) → Q a → Ensures P (f a))
      → (continue_with r f).0 ≡ returned c
      → P c
  continue-at Q (returned a, b) f c hr hf e = (hf a (hr a refl)).at b c e
  continue-at Q (raised, b) f c hr hf e = cc

  pub Ensures-bind :
      (Q : A → Type 0) (m : Call A) (f : A → Call B)
      → Ensures Q m
      → ((a : A) → Q a → Ensures P (f a))
      → Ensures P (m >>= f)
  unfolding ◌>>=◌
  Ensures-bind Q m f hm hf = record { at = λ b c e. continue-at Q (m b) f c (hm.at b) hf e }

  -- The result of the first call does not matter.
  pub Ensures-last :
      (m : Call A) (f : A → Call B) → ((a : A) → Ensures P (f a)) → Ensures P (m >>= f)
  Ensures-last m f hf = Ensures-bind (λ _. Unit) m f (record { at = λ b a e. tt }) (λ a _. hf a)

  pub Ensures-then : (m : Call A) (n : Call B) → Ensures P n → Ensures P (m >> n)
  unfolding ◌>>◌
  Ensures-then m n hn = Ensures-last m (λ _. n) (λ _. hn)

pub weaken :
    {A : Type 0} {P Q : A → Type 0} {m : Call A} → ((a : A) → P a → Q a) → Ensures P m → Ensures Q m
weaken f h = record { at = λ b a e. f a (h.at b a e) }
