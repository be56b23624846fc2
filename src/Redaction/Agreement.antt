-- ===== src/Redaction/Agreement.antt =====
-- redaction.py: how a budget develops, and calls that agree on every budget of which enough nodes
-- have been taken. One rule for each way to build a call.
use ai_voice_agent.Prelude.{
  Outcome, returned, raised, ℕ, suc, ◌≤◌, ◌<◌, ◌≡◌, refl, sym, ◌∙◌, inl, inr, Bool, true, false,
  arith, if◌then◌else◌, Bool-cases,
}
use ai_voice_agent.Redaction.Budgets.{
  ◌>>=◌, Call, pure, raise, continue_with, ◌>>◌, lift, catch_as, caught, with_budget, exhausted,
  take_node, take_scan, Budget,
}
use ai_voice_agent.Redaction.Markers.{max_event_nodes}

-- What the rest of an event may rely on: nodes and characters are only ever taken, the output never
-- grows, and the containers being expanded are those of before.
pub record Grows (b c : Budget) : Type 0 where
  pub nodes : b.visited ≤ c.visited
  pub characters : b.scanned ≤ c.scanned
  pub output_left : c.output ≤ b.output
  pub same_active : c.active ≡ b.active

pub Grows-refl : (b : Budget) → Grows b b
Grows-refl b = record {
  nodes = omega arith;
  characters = omega arith;
  output_left = omega arith;
  same_active = refl;
}

pub Grows-trans : {b c d : Budget} → Grows b c → Grows c d → Grows b d
Grows-trans first next = record {
  nodes = omega (arith, first.nodes, next.nodes);
  characters = omega (arith, first.characters, next.characters);
  output_left = omega (arith, first.output_left, next.output_left);
  same_active = next.same_active ∙ first.same_active;
}

pub not_exhausted : (b : Budget) → exhausted b ≡ false → b.visited < max_event_nodes
unfolding exhausted
not_exhausted b h = ground arith

-- From `k` taken nodes on, the two calls do the same, and the budget grows.
pub record Agrees {A : Type 0} (k : ℕ) (m n : Call A) : Type 0 where
  pub same : (b : Budget) → k ≤ b.visited → m b ≡ n b
  pub grows : (b : Budget) → k ≤ b.visited → Grows b (m b).1

pub catch-Grows :
    {A : Type 0} (a : A) (b : Budget) (r : Outcome A × Budget)
    → Grows b r.1
    → Grows b (catch_as a r).1
catch-Grows a b (returned _, c) h = h
catch-Grows a b (raised, c) h = h

module _ {A : Type 0} {k : ℕ} where
  pub Agrees-pure : (a : A) → Agrees k (pure a) (pure a)
  unfolding pure
  Agrees-pure a = record { same = λ b h. refl; grows = λ b h. Grows-refl b }

  pub Agrees-raise : Agrees k (raise {A = A}) raise
  unfolding raise
  Agrees-raise = record { same = λ b h. refl; grows = λ b h. Grows-refl b }

  pub Agrees-lift : (r : Outcome A) → Agrees k (lift r) (lift r)
  unfolding lift
  Agrees-lift r = record { same = λ b h. refl; grows = λ b h. Grows-refl b }

  pub Agrees-if :
      (t : Bool) (m m' n n' : Call A)
      → Agrees k m m'
      → Agrees k n n'
      → Agrees k (if t then m else n) (if t then m' else n')
  Agrees-if true m m' n n' hm hn = hm
  Agrees-if false m m' n n' hm hn = hn

  pub Agrees-with_budget :
      (f g : Budget → Call A)
      → ((b : Budget) → Agrees k (f b) (g b))
      → Agrees k (with_budget f) (with_budget g)
  unfolding with_budget
  Agrees-with_budget f g h = record {
    same = λ b le. (h b).same b le;
    grows = λ b le. (h b).grows b le;
  }

  pub Agrees-caught : (a : A) (m n : Call A) → Agrees k m n → Agrees k (caught a m) (caught a n)
  unfolding caught
  Agrees-caught a m n h = record {
    same = λ b le. rw (h.same b le) refl;
    grows = λ b le. catch-Grows a b (m b) (h.grows b le);
  }

module _ {A B : Type 0} {k : ℕ} where
  continue-Agrees :
      (b : Budget) (r : Outcome A × Budget) (f g : A → Call B)
      → k ≤ b.visited
      → Grows b r.1
      → ((a : A) → Agrees k (f a) (g a))
      → (continue_with r f ≡ continue_with r g) × Grows b (continue_with r f).1
  continue-Agrees b (returned a, c) f g le grown h =
      let more : k ≤ c.visited = omega (arith, grown.nodes) in
      ((h a).same c more, Grows-trans grown ((h a).grows c more))
  continue-Agrees b (raised, c) f g le grown h = (refl, grown)

  pub Agrees-bind :
      (m n : Call A) (f g : A → Call B)
      → Agrees k m n
      → ((a : A) → Agrees k (f a) (g a))
      → Agrees k (m >>= f) (n >>= g)
  unfolding ◌>>=◌
  Agrees-bind m n f g hm hf = record {
    same = λ b le. rw (sym (hm.same b le)) (continue-Agrees b (m b) f g le (hm.grows b le) hf).0;
    grows = λ b le. (continue-Agrees b (m b) f g le (hm.grows b le) hf).1;
  }

  pub Agrees-then :
      (m n : Call A) (f g : Call B) → Agrees k m n → Agrees k f g → Agrees k (m >> f) (n >> g)
  unfolding ◌>>◌
  Agrees-then m n f g hm hf = Agrees-bind m n (λ _. f) (λ _. g) hm (λ _. hf)

module _ {k : ℕ} where
  pub Agrees-take_node : Agrees k take_node take_node
  unfolding take_node
  Agrees-take_node = record {
    same = λ b le. refl;
    grows = λ b le. record {
      nodes = omega arith;
      characters = omega arith;
      output_left = omega arith;
      same_active = refl;
    };
  }

  pub Agrees-take_scan : (n : ℕ) → Agrees k (take_scan n) (take_scan n)
  unfolding take_scan
  Agrees-take_scan n = record {
    same = λ b le. refl;
    grows = λ b le. record {
      nodes = omega arith;
      characters = omega arith;
      output_left = omega arith;
      same_active = refl;
    };
  }

pub Agrees-later : {A : Type 0} {k k' : ℕ} (m n : Call A) → k ≤ k' → Agrees k m n → Agrees k' m n
Agrees-later m n le h = record {
  same = λ b le'. h.same b (omega arith);
  grows = λ b le'. h.grows b (omega arith);
}

node_taken-Grows : (b c : Budget) → Grows (record b { visited = suc b.visited }) c → Grows b c
node_taken-Grows b c h = record {
  nodes = omega (arith, h.nodes);
  characters = h.characters;
  output_left = h.output_left;
  same_active = h.same_active;
}

-- A call that gives up unless there is a node left, which it then takes.
module _ {A : Type 0} {k : ℕ} (stop : Budget → Bool) (given_up m n : Call A)
    (goes_on : (b : Budget) → stop b ≡ false → b.visited < max_event_nodes)
    (h₀ : Agrees k given_up given_up) (h : k < max_event_nodes → Agrees (suc k) m n) where
  pub Agrees-guarded :
      Agrees k
        (with_budget λ b. if stop b then given_up else (take_node >> m))
        (with_budget λ b. if stop b then given_up else (take_node >> n))
  unfolding with_budget ◌>>◌ ◌>>=◌ take_node
  Agrees-guarded = record {
    same = λ b le. elim (Bool-cases (stop b)) [
      | inl e ↦ rw e refl
      | inr e ↦
          let left = goes_on b e in
          rw e ((h (omega arith)).same (record b { visited = suc b.visited }) (omega arith))
    ];
    grows = λ b le. elim (Bool-cases (stop b)) [
      | inl e ↦ rw e (h₀.grows b le)
      | inr e ↦
          let left = goes_on b e in
          rw e (
            node_taken-Grows b _
              ((h (omega arith)).grows (record b { visited = suc b.visited }) (omega arith)))
    ];
  }

pub ruleset agreement = (
  Agrees-pure, Agrees-raise, Agrees-lift, Agrees-if, Agrees-with_budget, Agrees-caught, Agrees-bind,
  Agrees-then, Agrees-take_node, Agrees-take_scan,
)
