-- ===== src/Database/Baseline/Accepted.antt =====
-- Which servers verify_database_baseline accepts.
use ai_voice_agent.Database.Baseline.{
  expected_schema_head, required_extensions, missing_from, verify_database_baseline,
  SchemaRevisionStatus, QueryError, Answer, Role, ServerAnswers, BaselineResult, TransactionEnds,
  verified_status, deployment_gated, database_error, connectivity_error, unrelated_error, answer,
  query_fails, accepted, refused, passed_unchanged, check_revisions, leave_transaction, on_error,
  check_readable, enter_transaction, check_version, raised_or, check_missing, check_installed,
  check_role,
}
use ai_voice_agent.Database.Failures.{text_in}
use ai_voice_agent.Prelude.{
  ℕ, ◌≤◌, ◌≡◌, refl, ap, ◌↔◌, ◌⊎◌, inl, inr, Bool, true, false, ◌||◌, Option, none, some, List, [],
  ◌∷◌, arith, ltb, Bool-cases, length, all,
}
use ai_voice_agent.Text.{Text}
use ai_voice_agent.Text.Sorting.{
  sort_texts, length-sort_texts, sort_texts_single, text_eq_refl, is_single, is_single_iff,
}

-- A server that meets the baseline: a supported version, a role without superuser or BYPASSRLS, the
-- required extensions, and a revision table that the role cannot read or that holds the head alone.
pub Meets : ServerAnswers → ℕ → Text → SchemaRevisionStatus → Type 0
Meets server version name status =
    (server.server_version_num ≡ answer version)
    × (160000 ≤ version)
    × (server.role ≡ answer (record { rolname = name; rolsuper = false; rolbypassrls = false }))
    × ((installed : List Text) × (server.installed ≡ answer installed)
        × (all (λ extension. text_in extension installed) required_extensions ≡ true))
    × (((status ≡ deployment_gated) × (server.can_read_revision ≡ answer (some false)))
        ⊎ ((status ≡ verified_status)
            × (server.can_read_revision ≡ answer (some true))
            × (server.version_nums ≡ answer (expected_schema_head ∷ []))))

missing_from_nil :
    (extensions installed : List Text)
    → missing_from extensions installed ≡ []
      ↔ all (λ extension. text_in extension installed) extensions ≡ true
unfolding missing_from
missing_from_nil [] installed = (λ h. refl, λ h. refl)
missing_from_nil (extension ∷ extensions) installed =
    let rest = missing_from_nil extensions installed in
    (λ h. ground (arith, rest.0), λ h. ground (arith, rest.1))

sort_texts_nil : (texts : List Text) → sort_texts texts ≡ [] → texts ≡ []
sort_texts_nil [] h = refl
sort_texts_nil (text ∷ texts) h =
    let same : length (sort_texts (text ∷ texts)) ≡ 0 = rw h refl in
    absurd (omega (arith, length-sort_texts (text ∷ texts)))

module _ (server : ServerAnswers) (version : ℕ) (name : Text) (status : SchemaRevisionStatus) where
  Readable : Type 0
  Readable =
      ((status ≡ deployment_gated) × (server.can_read_revision ≡ answer (some false)))
      ⊎ ((status ≡ verified_status)
          × (server.can_read_revision ≡ answer (some true))
          × (server.version_nums ≡ answer (expected_schema_head ∷ [])))

  Extended : Type 0
  Extended =
      (installed : List Text) × (server.installed ≡ answer installed)
      × (all (λ extension. text_in extension installed) required_extensions ≡ true)

  revisions_lem :
      (v : ℕ) (n : Text) (found : Answer (List Text))
      → check_revisions v n found ≡ accepted version name status
      → (v ≡ version)
        × (n ≡ name)
        × (status ≡ verified_status)
        × (found ≡ answer (expected_schema_head ∷ []))
  unfolding check_revisions on_error
  revisions_lem v n (query_fails database_error) h = cc
  revisions_lem v n (query_fails connectivity_error) h = cc
  revisions_lem v n (query_fails unrelated_error) h = cc
  revisions_lem v n (answer found) h =
      elim (Bool-cases (is_single (sort_texts found) expected_schema_head)) [
        | inr other ↦ absurd (ground arith)
        | inl single ↦
            let sorted = (is_single_iff (sort_texts found) expected_schema_head).0 single in
            let same = (sort_texts_single found expected_schema_head).0 sorted in
            (ground arith, ground arith, ground arith, ap (λ texts. answer texts) same)
      ]

  readable_lem :
      (v : ℕ) (n : Text) (found : Answer (Option Bool))
      → server.can_read_revision ≡ found
      → check_readable server v n found ≡ accepted version name status
      → (v ≡ version) × (n ≡ name) × Readable
  unfolding check_readable on_error Readable
  readable_lem v n (query_fails database_error) e h = cc
  readable_lem v n (query_fails connectivity_error) e h = cc
  readable_lem v n (query_fails unrelated_error) e h = cc
  readable_lem v n (answer none) e h = cc
  readable_lem v n (answer (some false)) e h = (ground arith, ground arith, inl (ground arith, e))
  readable_lem v n (answer (some true)) e h =
      let (same_version, same_name, kind, found) = revisions_lem v n server.version_nums h in
      (same_version, same_name, inr (kind, e, found))

  installed_lem :
      (v : ℕ) (n : Text) (found : Answer (List Text))
      → server.installed ≡ found
      → check_installed server v n found ≡ accepted version name status
      → (v ≡ version) × (n ≡ name) × Extended × Readable
  unfolding check_installed on_error Extended
  installed_lem v n (query_fails database_error) e h = cc
  installed_lem v n (query_fails connectivity_error) e h = cc
  installed_lem v n (query_fails unrelated_error) e h = cc
  installed_lem v n (answer installed) e h =
      complete (sort_texts (missing_from required_extensions installed)) refl h
    where
      complete :
          (missing : List Text)
          → sort_texts (missing_from required_extensions installed) ≡ missing
          → check_missing server v n missing ≡ accepted version name status
          → (v ≡ version) × (n ≡ name) × Extended × Readable
      complete (extension ∷ missing) same accept = cc
      complete [] same accept =
          let all_there =
            (missing_from_nil required_extensions installed).0
              (sort_texts_nil (missing_from required_extensions installed) same) in
          let (same_version, same_name, readable) =
            readable_lem v n server.can_read_revision refl accept in
          (same_version, same_name, (installed, e, all_there), readable)

  role_lem :
      (v : ℕ) (found : Answer Role)
      → check_role server v found ≡ accepted version name status
      → (v ≡ version)
        × (found ≡ answer (record { rolname = name; rolsuper = false; rolbypassrls = false }))
        × Extended
        × Readable
  unfolding check_role on_error
  role_lem v (query_fails database_error) h = cc
  role_lem v (query_fails connectivity_error) h = cc
  role_lem v (query_fails unrelated_error) h = cc
  role_lem v (answer role) h = elim (Bool-cases (role.rolsuper || role.rolbypassrls)) [
    | inl privileged ↦ absurd (ground arith)
    | inr plain ↦
        let (same_version, same_name, extended, readable) =
          installed_lem v role.rolname server.installed refl (ground arith) in
        (same_version, ground arith, extended, readable)
  ]

  version_lem :
      (found : Answer ℕ)
      → server.server_version_num ≡ found
      → check_version server found ≡ accepted version name status
      → Meets server version name status
  unfolding check_version on_error Meets Extended Readable
  version_lem (query_fails database_error) e h = cc
  version_lem (query_fails connectivity_error) e h = cc
  version_lem (query_fails unrelated_error) e h = cc
  version_lem (answer v) e h = elim (Bool-cases (ltb v 160000)) [
    | inl old ↦ absurd (ground arith)
    | inr supported ↦
        let (same_version, role, extended, readable) = role_lem v server.role (ground arith) in
        (ground arith, ground arith, role, extended, readable)
  ]

  Meets-accepted :
      Meets server version name status
      → check_version server server.server_version_num ≡ accepted version name status
  unfolding Meets check_version check_role check_installed check_readable check_revisions
      check_missing sort_texts is_single
  Meets-accepted
        (found_version, supported, found_role, (installed, found_installed, all_there), readable) =
      let complete : missing_from required_extensions installed ≡ [] =
        (missing_from_nil required_extensions installed).1 all_there in
      let sorted : sort_texts (expected_schema_head ∷ []) ≡ expected_schema_head ∷ [] =
        (sort_texts_single (expected_schema_head ∷ []) expected_schema_head).1 refl in
      elim readable [
        | inl (gated, denied) ↦ ground arith
        | inr (kind, allowed, head) ↦ ground (arith, text_eq_refl expected_schema_head)
      ]

module _ (version : ℕ) (name : Text) (status : SchemaRevisionStatus) where
  on_error-refuses : (e : QueryError) → on_error e ≡ accepted version name status → ⊥
  unfolding on_error
  on_error-refuses database_error h = cc
  on_error-refuses connectivity_error h = cc
  on_error-refuses unrelated_error h = cc

  raised_or_lem :
      (result : BaselineResult) (raised : Option QueryError)
      → raised_or result raised ≡ accepted version name status
      → (raised ≡ none) × (result ≡ accepted version name status)
  unfolding raised_or
  raised_or_lem result none h = (refl, h)
  raised_or_lem result (some e) h = absurd (on_error-refuses e h)

  leave_transaction_lem :
      (ends : TransactionEnds) (result : BaselineResult)
      → leave_transaction ends result ≡ accepted version name status
      → (ends.committing ≡ none) × (result ≡ accepted version name status)
  unfolding leave_transaction
  leave_transaction_lem ends (accepted v n s) h = raised_or_lem (accepted v n s) ends.committing h
  leave_transaction_lem ends (refused reason) h =
      let (_, same) = raised_or_lem (refused reason) ends.rolling_back h in cc
  leave_transaction_lem ends passed_unchanged h =
      let (_, same) = raised_or_lem passed_unchanged ends.rolling_back h in cc

  enter_transaction_lem :
      (ends : TransactionEnds) (server : ServerAnswers) (entering : Option QueryError)
      → enter_transaction ends server entering ≡ accepted version name status
      → (entering ≡ none) × (ends.committing ≡ none) × Meets server version name status
  unfolding enter_transaction
  enter_transaction_lem ends server (some e) h = absurd (on_error-refuses e h)
  enter_transaction_lem ends server none h =
      let (committed, same) = leave_transaction_lem ends _ h in
      (refl, committed, version_lem server version name status server.server_version_num refl same)

-- Startup accepts the connected database, with the version, role and status that it reports, exactly
-- if the transaction is entered, the server meets the baseline and the transaction commits. The
-- baseline is a version of at least 160000, a role that is neither superuser nor exempt from
-- row-level security, the three extensions installed, and a revision table that the role cannot
-- read or that holds the expected head and nothing else.
pub accepted_iff :
    (ends : TransactionEnds) (server : ServerAnswers) (version : ℕ) (name : Text)
    (status : SchemaRevisionStatus)
    → verify_database_baseline ends server ≡ accepted version name status
      ↔ ((ends.entering ≡ none) × (ends.committing ≡ none) × Meets server version name status)
unfolding verify_database_baseline enter_transaction leave_transaction raised_or
accepted_iff ends server version name status = (
  enter_transaction_lem version name status ends server ends.entering,
  λ (entered, committed, meets).
      let checked = Meets-accepted server version name status meets in
      rw (entered, checked, committed) refl,
)
