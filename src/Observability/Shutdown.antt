-- ===== src/Observability/Shutdown.antt =====
-- What a started telemetry closes when it shuts down, pkg/observability/telemetry.go.
use open_research_agent.Base.{
  false, subst, true, ◌↔◌, ◌≡◌, refl, sym, ap, ◌∙◌, ◌≢◌, inl, inr, List, [], ◌∷◌, ◌++◌, not,
  Bool-cases, Option-cases, arith, some, none, Option, String, if◌then◌else◌, is_none, codes,
}
use mathlib.Core.List.{append-nil}
use open_research_agent.Observability.Data.{InstrumentKind}
use open_research_agent.Observability.Setup.{
  shutdown, Telemetry, config_of, begun, TelemetryConfig, Provider, tracer_provider, meter_provider,
  Sdk, TelemetrySetup, telemetry_ready, telemetry_failed, metrics_not_initialized, init_tracing,
  init_metrics, set_up, new_telemetry, shutdown_loop,
}
use open_research_agent.Observability.Recording.{
  new_metrics, instruments, Meter, metrics_panicked, create_all,
}
use open_research_agent.Domain.{Bytes}

-- The errors that the functions return, in their order, and their texts in one.
abbrev pub failures : (Provider → Option Bytes) → List Provider → List Bytes
failures close [] = []
failures close (fn ∷ fns) =
    let rest = failures close fns in elim (close fn) [ none ↦ rest | some err ↦ err ∷ rest ]

abbrev pub later_texts : List Bytes → Bytes
later_texts [] = []
later_texts (err ∷ errs) = codes "; " ++ err ++ later_texts errs

abbrev pub joined : List Bytes → Option Bytes
joined [] = none
joined (err ∷ errs) = some (err ++ later_texts errs)

append_later :
    (err next rest : Bytes)
    → (err ++ codes "; " ++ next) ++ rest ≡ err ++ (codes "; " ++ next ++ rest)
append_later [] next rest = refl
append_later (b ∷ err) next rest = ap (λ bs. b ∷ bs) (append_later err next rest)

shutdown_loop-some :
    (close : Provider → Option Bytes) (fns : List Provider) (err : Bytes)
    → shutdown_loop close fns (some err) ≡ joined (err ∷ failures close fns)
shutdown_loop-some close [] err = ap some (sym (append-nil err))
shutdown_loop-some close (fn ∷ fns) err = elim (Option-cases (close fn)) [
  | inl e ↦ rw (e, failures) (shutdown_loop-some close fns err)
  | inr (next, e) ↦
      rw (e, failures, shutdown_loop-some close fns (err ++ codes "; " ++ next))
        (ap some (append_later err next (later_texts (failures close fns))))
]

-- The providers of the enabled components, in the order of their setup.
abbrev pub enabled : TelemetryConfig → List Provider
enabled config =
    (if config.enable_tracing then tracer_provider ∷ [] else [])
    ++ (if config.enable_metrics then meter_provider ∷ [] else [])

shutdown_loop-joined :
    (close : Provider → Option Bytes) (fns : List Provider)
    → shutdown_loop close fns none ≡ joined (failures close fns)
shutdown_loop-joined close [] = refl
shutdown_loop-joined close (fn ∷ fns) = elim (Option-cases (close fn)) [
  | inl e ↦ rw (e, failures) (shutdown_loop-joined close fns)
  | inr (err, e) ↦ rw (e, failures) (shutdown_loop-some close fns err)
]

-- What a setup comes to.
abbrev pub IsSetUp : TelemetryConfig → TelemetrySetup → Type 0
IsSetUp config (telemetry_ready t) =
    (t.shutdown_funcs ≡ enabled config) × (is_none t.meter ≡ not config.enable_metrics)
IsSetUp config (telemetry_failed (metrics_not_initialized err) running) =
    running ≡ (if config.enable_tracing then tracer_provider ∷ [] else [])
IsSetUp config (telemetry_failed err running) = running ≡ []

module _ (sdk : Sdk) where
  set_up-IsSetUp : (config : TelemetryConfig) → IsSetUp config (set_up sdk config)
  unfolding set_up init_tracing init_metrics
  set_up-IsSetUp config = elim (Bool-cases config.enable_tracing) [
    | inl t ↦ elim (Option-cases (sdk.new_trace_exporter config.otlp_endpoint)) [
      | inl e ↦ ground (arith, t, e)
      | inr (err, e) ↦ ground (arith, t, e)
    ]
    | inr t ↦ ground (arith, t)
  ]

  begun-IsSetUp :
      (config : TelemetryConfig) (resource : Option Bytes)
      → IsSetUp config (begun sdk config resource)
  unfolding set_up
  begun-IsSetUp config none = set_up-IsSetUp config
  begun-IsSetUp config (some err) = refl

  new_telemetry-IsSetUp :
      (env : String → String) (given : Option TelemetryConfig)
      → IsSetUp (config_of env given) (new_telemetry sdk env given)
  unfolding new_telemetry
  new_telemetry-IsSetUp env given =
      begun-IsSetUp (config_of env given) (sdk.merge_resource (config_of env given))

create_all-ne-panicked :
    (meter : Meter) (kinds : List (InstrumentKind × String))
    → create_all meter kinds ≢ metrics_panicked
create_all-ne-panicked meter [] p = ground arith
create_all-ne-panicked meter ((kind, name) ∷ others) p =
    ground (arith, create_all-ne-panicked meter others)

pub new_metrics-nil_meter :
    (meter : Option Meter) → (new_metrics meter ≡ metrics_panicked) ↔ (is_none meter ≡ true)
unfolding new_metrics
new_metrics-nil_meter none = (λ p. refl, λ p. refl)
new_metrics-nil_meter (some meter) =
    (λ p. ground (arith, create_all-ne-panicked meter instruments p), λ p. ground arith)

module _ (sdk : Sdk) (env : String → String) (given : Option TelemetryConfig) (t : Telemetry) where
  -- When the setup of the telemetry succeeds, its shutdown closes the provider of each enabled
  -- component, the tracer's first, whatever the others return: its error is that of the providers that
  -- fail, their texts joined by "; " in that order, and there is none exactly when none of them fails.
  pub shutdown-new_telemetry :
      (close : Provider → Option Bytes)
      → new_telemetry sdk env given ≡ telemetry_ready t
      → shutdown close t ≡ joined (failures close (enabled (config_of env given)))
  unfolding shutdown
  shutdown-new_telemetry close h =
      shutdown_loop-joined close t.shutdown_funcs
      ∙ ap (λ fns. joined (failures close fns))
          (subst (IsSetUp (config_of env given)) h (new_telemetry-IsSetUp sdk env given)).0

  -- After a successful setup the creation of the metrics panics exactly when metrics are disabled,
  -- since the meter is then nil.
  pub new_metrics-new_telemetry :
      new_telemetry sdk env given ≡ telemetry_ready t
      → (new_metrics t.meter ≡ metrics_panicked) ↔ ((config_of env given).enable_metrics ≡ false)
  new_metrics-new_telemetry h =
      let e : is_none t.meter ≡ not (config_of env given).enable_metrics =
        (subst (IsSetUp (config_of env given)) h (new_telemetry-IsSetUp sdk env given)).1 in
      ground (arith, e, new_metrics-nil_meter t.meter)
