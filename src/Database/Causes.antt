-- ===== src/Database/Causes.antt =====
-- The chain that _causes follows, and what the classifiers find on it.
use ai_voice_agent.Database.Failures.{
  Heap, id_in, wraps, causes_from, causes, is_outage, is_acquisition_refusal, scan,
  is_database_unavailable, is_connection_acquisition_unavailable, Failure,
}
use ai_voice_agent.Prelude.{
  ℕ, zero, suc, ◌≤◌, ◌≡◌, refl, sym, ap, ◌↔◌, ◌⊎◌, inl, inr, Bool, true, false, ◌||◌, Option, none,
  some, List, [], ◌∷◌, ◌++◌, append-nil, append_assoc, arith, if◌then◌else◌, Bool-cases, length,
  All,
}

-- Each entry of the chain is what the one before it wraps.
pub Linked : Heap → ℕ → List ℕ → Type 0
Linked heap e [] = Unit {0}
Linked heap e (next ∷ chain) = (wraps (heap e) ≡ some next) × Linked heap next chain

pub Distinct : List ℕ → Type 0
Distinct [] = Unit {0}
Distinct (e ∷ chain) = (id_in e chain ≡ false) × Distinct chain

-- What the loop adds to the chain it was given.
added : Heap → ℕ → List ℕ → Option ℕ → List ℕ
added heap zero chain current = []
added heap (suc room) chain none = []
added heap (suc room) chain (some e) =
    let rest = e ∷ added heap room (chain ++ e ∷ []) (wraps (heap e)) in
    if id_in e chain then [] else rest

id_in-append : (e : ℕ) (xs ys : List ℕ) → id_in e (xs ++ ys) ≡ (id_in e xs || id_in e ys)
id_in-append e [] ys = refl
id_in-append e (x ∷ xs) ys = ground (arith, id_in-append e xs ys)

causes_from-added :
    (heap : Heap) (room : ℕ) (chain : List ℕ) (current : Option ℕ)
    → causes_from heap room chain current ≡ chain ++ added heap room chain current
unfolding causes_from added
causes_from-added heap zero chain current = sym (append-nil chain)
causes_from-added heap (suc room) chain none = sym (append-nil chain)
causes_from-added heap (suc room) chain (some e) = elim (Bool-cases (id_in e chain)) [
  | inl met ↦ rw met (sym (append-nil chain))
  | inr fresh ↦ rw (
    fresh,
    causes_from-added heap room (chain ++ e ∷ []) (wraps (heap e)),
    append_assoc chain (e ∷ []) (added heap room (chain ++ e ∷ []) (wraps (heap e))),
  )
]

added_room :
    (heap : Heap) (room : ℕ) (chain : List ℕ) (current : Option ℕ)
    → length (added heap room chain current) ≤ room
unfolding added
added_room heap zero chain current = omega arith
added_room heap (suc room) chain none = omega arith
added_room heap (suc room) chain (some e) =
    ground (arith, added_room heap room (chain ++ e ∷ []) (wraps (heap e)))

-- Nothing that is added was in the chain.
added_fresh :
    (heap : Heap) (room : ℕ) (chain : List ℕ) (current : Option ℕ) (x : ℕ)
    → id_in x chain ≡ true
    → id_in x (added heap room chain current) ≡ false
unfolding added
added_fresh heap zero chain current x h = refl
added_fresh heap (suc room) chain none x h = refl
added_fresh heap (suc room) chain (some e) x h = elim (Bool-cases (id_in e chain)) [
  | inl met ↦ rw met refl
  | inr fresh ↦ ground (
    arith,
    id_in-append x chain (e ∷ []),
    added_fresh heap room (chain ++ e ∷ []) (wraps (heap e)) x,
  )
]

added-Distinct :
    (heap : Heap) (room : ℕ) (chain : List ℕ) (current : Option ℕ)
    → Distinct (added heap room chain current)
unfolding added Distinct
added-Distinct heap zero chain current = tt
added-Distinct heap (suc room) chain none = tt
added-Distinct heap (suc room) chain (some e) = elim (Bool-cases (id_in e chain)) [
  | inl met ↦ rw met tt
  | inr fresh ↦ rw fresh (
    added_fresh heap room (chain ++ e ∷ []) (wraps (heap e)) e
        (ground (arith, id_in-append e chain (e ∷ []))),
    added-Distinct heap room (chain ++ e ∷ []) (wraps (heap e)),
  )
]

Linked-none :
    (heap : Heap) (room : ℕ) (chain : List ℕ) (e : ℕ) → Linked heap e (added heap room chain none)
unfolding added Linked
Linked-none heap zero chain e = tt
Linked-none heap (suc room) chain e = tt

added-Linked :
    (heap : Heap) (room : ℕ) (chain : List ℕ) (e : ℕ) (current : Option ℕ)
    → wraps (heap e) ≡ current
    → Linked heap e (added heap room chain current)
unfolding added Linked
added-Linked heap room chain e none h = Linked-none heap room chain e
added-Linked heap zero chain e (some next) h = tt
added-Linked heap (suc room) chain e (some next) h = elim (Bool-cases (id_in next chain)) [
  | inl met ↦ rw met tt
  | inr fresh ↦
      rw fresh (h, added-Linked heap room (chain ++ next ∷ []) next (wraps (heap next)) refl)
]

-- The chain of causes begins with the exception, holds at most eight, none of them twice even if
-- the causes form a cycle, and each is what the one before it wraps.
pub causes_lem :
    (heap : Heap) (e : ℕ)
    → (rest : List ℕ) × (causes heap e ≡ e ∷ rest)
      × (length (causes heap e) ≤ 8)
      × Distinct (causes heap e)
      × Linked heap e rest
unfolding causes added
causes_lem heap e =
    let same : causes heap e ≡ added heap 8 [] (some e) = causes_from-added heap 8 [] (some e) in
    (
      added heap 7 (e ∷ []) (wraps (heap e)),
      same,
      rw same (added_room heap 8 [] (some e)),
      rw same (added-Distinct heap 8 [] (some e)),
      added-Linked heap 7 (e ∷ []) e (wraps (heap e)) refl,
    )

scan_hit :
    (heap : Heap) (test : Failure → Bool) (chain : List ℕ)
    → scan heap test chain ≡ true
    → (before : List ℕ) × (hit : ℕ) × (behind : List ℕ) × (chain ≡ before ++ hit ∷ behind)
      × All (λ x. (heap x).is_exception ≡ true) (before ++ hit ∷ [])
      × (test (heap hit) ≡ true)
unfolding scan
scan_hit heap test [] h = cc
scan_hit heap test (e ∷ chain) h = elim (Bool-cases (heap e).is_exception) [
  | inr exits ↦ absurd (ground arith)
  | inl caught ↦ elim (Bool-cases (test (heap e))) [
    | inl passes ↦ ([], e, chain, refl, (caught, tt), passes)
    | inr fails ↦
        let (before, hit, behind, same, exceptions, passes) =
          scan_hit heap test chain (ground arith) in
        (e ∷ before, hit, behind, ap (λ xs. e ∷ xs) same, (caught, exceptions), passes)
  ]
]

hit_scan :
    (heap : Heap) (test : Failure → Bool) (before : List ℕ) (hit : ℕ) (behind : List ℕ)
    → All (λ x. (heap x).is_exception ≡ true) (before ++ hit ∷ [])
    → test (heap hit) ≡ true
    → scan heap test (before ++ hit ∷ behind) ≡ true
unfolding scan
hit_scan heap test [] hit behind exceptions passes = ground arith
hit_scan heap test (e ∷ before) hit behind exceptions passes =
    ground (arith, hit_scan heap test before hit behind exceptions.1 passes)

-- The chain of an exception reaches a failure that meets the test through Exceptions alone.
pub Reaches : Heap → (Failure → Bool) → ℕ → Type 0
Reaches heap test e =
    (before : List ℕ) × (hit : ℕ) × (behind : List ℕ) × (causes heap e ≡ before ++ hit ∷ behind)
    × All (λ x. (heap x).is_exception ≡ true) (before ++ hit ∷ [])
    × (test (heap hit) ≡ true)

scan_iff :
    (heap : Heap) (test : Failure → Bool) (e : ℕ)
    → scan heap test (causes heap e) ≡ true ↔ Reaches heap test e
unfolding Reaches
scan_iff heap test e = (
  scan_hit heap test (causes heap e),
  λ (before, hit, behind, same, exceptions, passes).
      rw same (hit_scan heap test before hit behind exceptions passes),
)

-- An exception means an outage exactly if its chain of causes holds a failure that is one, and it
-- and everything before it are Exceptions, so that no cancellation or exit stands between.
pub is_database_unavailable_iff :
    (heap : Heap) (e : ℕ) → is_database_unavailable heap e ≡ true ↔ Reaches heap is_outage e
unfolding is_database_unavailable
is_database_unavailable_iff heap e = scan_iff heap is_outage e

-- While a connection is acquired, an outage is also a refusal with SQLSTATE 55000 on the chain, again
-- reached through Exceptions alone; there is no further case.
pub is_acquisition_unavailable_iff :
    (heap : Heap) (e : ℕ)
    → is_connection_acquisition_unavailable heap e ≡ true
      ↔ (Reaches heap is_outage e ⊎ Reaches heap is_acquisition_refusal e)
unfolding is_connection_acquisition_unavailable
is_acquisition_unavailable_iff heap e =
    let outage = is_database_unavailable_iff heap e in
    let refusal = scan_iff heap is_acquisition_refusal e in
    elim (Bool-cases (is_database_unavailable heap e)) [
      | inl outage_found ↦ (λ _. inl (outage.0 outage_found), λ _. rw outage_found refl)
      | inr missing ↦ rw missing (
        λ h. inr (refusal.0 h),
        λ cases. elim cases [
          | inl reached ↦ absurd (ground (arith, outage.1 reached))
          | inr reached ↦ refusal.1 reached
        ],
      )
    ]
