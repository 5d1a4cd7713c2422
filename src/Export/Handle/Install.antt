-- ===== src/Export/Handle/Install.antt =====
-- When `install_on` of crates/eden_logger_export/src/lib.rs installs an exporter, and what it does to
-- the registry of sinks.
use eden_logger.Registry.{Registry, Registration, Result, ok, err, register_sink}
use eden_logger.Registry.Invariant.{IsSound}
use eden_logger.Registry.Dispatch.{Sinks, put, sinks_of, spec_register, registry-refines}
use eden_logger.Export.Config.{ExporterConfig, validate, invalid_config, transport}
use eden_logger.Export.Config.Validation.{IsUsable, validate_iff}
use eden_logger.Export.Handle.{
  Generation, generation, prepare_generation, Installation, not_prepared, not_registered, installed,
  close_generation, finish_install, register_prepared, install_on,
}
use eden_logger.Export.Handle.Lifecycle.{stop_acceptance-kept}
use eden_logger.Base.{
  ℕ, ◌≡◌, refl, sym, ap, ◌∙◌, ◌↔◌, inl, inr, Bool, true, false, Option, none, some, arith,
  Bool-cases, Option-cases, Text,
}

abbrev is_ok : {A : Type 0} → Result A → Bool
is_ok (ok a) = true
is_ok (err e) = false

-- the registry's view after a registration that succeeds or does not
abbrev sinks_after : Bool → ℕ → Registry → Sinks
sinks_after true key st = put key (some st.next_arc) (sinks_of st)
sinks_after false key st = sinks_of st

register_sink-free :
    (st : Registry) (key : ℕ)
    → IsSound st
    → ((is_ok (register_sink st key).1 ≡ true) ↔ ((st.poisoned ≡ false) × (sinks_of st key ≡ none)))
      × ((k : ℕ)
          → sinks_of (register_sink st key).0 k
            ≡ sinks_after (is_ok (register_sink st key).1) key st k)
register_sink-free st key sound = elim (Bool-cases st.poisoned) [
  | inl broken ↦
      unfold register_sink in
      simp broken (((λ h. absurd (ground arith)), (λ h. absurd (ground arith))), (λ k. refl))
  | inr live ↦
      let (view_lem, result_lem) =
        (registry-refines st key (record { slot = key; callback = none }) sound live).0 in
      elim (Option-cases (sinks_of st key)) [
        | inl free ↦
            let done : is_ok (register_sink st key).1 ≡ true =
              ap is_ok result_lem ∙ unfold spec_register in rw free refl in
            rw done (
              (λ h. (live, free), λ h. refl),
              λ k. view_lem k ∙ unfold spec_register in rw free refl,
            )
        | inr (c, taken) ↦
            let failed : is_ok (register_sink st key).1 ≡ false =
              ap is_ok result_lem ∙ unfold spec_register in rw taken refl in
            rw failed (
              ((λ h. absurd (ground arith)), (λ h. absurd (ground arith))),
              λ k. view_lem k ∙ unfold spec_register in rw taken refl,
            )
      ]
]

module _ {ℓ μ} {A : Type ℓ} {E : Type μ} where
  abbrev pub is_installed : Installation A E → Bool
  is_installed (not_prepared error) = false
  is_installed (not_registered error prepared) = false
  is_installed (installed handle) = true

  -- a generation that is dropped again accepts no record
  abbrev pub IsClosed : Installation A E → Type 0
  IsClosed (not_prepared error) = Unit
  IsClosed (not_registered error prepared) = prepared.collector.shared.accepting ≡ false
  IsClosed (installed handle) = Unit

module _ {ℓ μ} {A : Type ℓ} (E : Type μ) where
  finish_install-kept :
      (prepared : Generation A) (r : Registry × Result Registration)
      → let (after, result) = finish_install {E = E} prepared r in
        (after ≡ r.0) × (is_installed result ≡ is_ok r.1) × IsClosed result
  unfolding finish_install close_generation
  finish_install-kept prepared (st, ok registration) = (refl, refl, tt)
  finish_install-kept prepared (st, err error) =
      (refl, refl, (stop_acceptance-kept prepared.collector.shared).0)

module _ {κ μ} {H : Type κ} {E : Type μ} (new_client : H → Option E) where
  prepare_generation-cases {ℓ} :
      (A : Type ℓ) (config : ExporterConfig H)
      → ((m : Text)
          → validate config ≡ some m
          → prepare_generation {A = A} new_client config ≡ inl (invalid_config m))
        × ((x : E)
            → validate config ≡ none
            → new_client config.http ≡ some x
            → prepare_generation {A = A} new_client config ≡ inl (transport x))
        × (validate config ≡ none
            → new_client config.http ≡ none
            → prepare_generation {A = A} new_client config
              ≡ inr (generation {A = A} new_client config))
  unfolding prepare_generation
  prepare_generation-cases A config = (
    λ m e. rw (e, prepare_generation) refl,
    λ x e f. rw (e, f, prepare_generation) refl,
    λ e f. rw (e, f, prepare_generation) refl,
  )

  -- What an installation gives: a handle exactly if nothing is in the way, and the registry.
  pub record IsInstall {ℓ} (A : Type ℓ) (st : Registry) (key : ℕ) (config : ExporterConfig H)
      (after : Registry) (result : Installation A E) : Type (κ ⊔ μ) where
    pub succeeds : (is_installed result ≡ true) ↔ (
        IsUsable config
        × (new_client config.http ≡ none)
        × (st.poisoned ≡ false)
        × (sinks_of st key ≡ none))
    pub sinks : (k : ℕ) → sinks_of after k ≡ sinks_after (is_installed result) key st k
    pub closed : IsClosed result

  -- From a sound registry, an installation succeeds exactly if the configuration is usable, the HTTP
  -- client takes its part of it, the registry's lock is not poisoned and no sink is registered for the
  -- type of the records. Then the sinks are those from before with the new callback for that type, and
  -- otherwise they are unchanged; a generation that was prepared in vain accepts no record.
  pub install_on_iff {ℓ} :
      (A : Type ℓ) (st : Registry) (key : ℕ) (config : ExporterConfig H)
      → IsSound st
      → let (after, result) = install_on {A = A} new_client st key config in
        IsInstall A st key config after result
  unfolding install_on register_prepared
  install_on_iff A st key config sound =
      let (invalid, no_client, prepared) = prepare_generation-cases A config in
      elim (Option-cases (validate config)) [
        | inr (message, e) ↦ rw (invalid message e) (record {
          succeeds = (
            λ h. absurd (ground arith),
            λ u. absurd (ground (arith, (validate_iff config).1 u.0)),
          );
          sinks = λ k. refl;
          closed = tt;
        })
        | inl e ↦ elim (Option-cases (new_client config.http)) [
          | inr (error, f) ↦ rw (no_client error e f) (record {
            succeeds = (λ h. absurd (ground arith), λ u. absurd (ground (arith, u.1)));
            sinks = λ k. refl;
            closed = tt;
          })
          | inl f ↦
              let (free, view_lem) = register_sink-free st key sound in
              let (same, answer, shut) =
                finish_install-kept E (generation new_client config) (register_sink st key) in
              rw (prepared e f) (record {
                succeeds = (
                  λ h.
                      let (live, none_there) = free.0 (sym answer ∙ h) in
                      ((validate_iff config).0 e, f, live, none_there),
                  λ u. answer ∙ free.1 (u.2, u.3),
                );
                sinks = λ k.
                    ap (λ (r : Registry). sinks_of r k) same
                    ∙ view_lem k
                    ∙ ap (λ b. sinks_after b key st k) (sym answer);
                closed = shut;
              })
        ]
      ]
