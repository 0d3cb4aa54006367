-- ===== src/Config/Saving.antt =====
-- A configuration that is saved and loaded again, and a file that leaves the timeout out.
use open_research_agent.Base.{
  ◌≡◌, refl, sym, ap, ◌∙◌, subst, inl, inr, Bool-cases, ℤ, arith, some, none, Option, String,
  str_eq, Float64,
}
use open_research_agent.Domain.{Bytes}
use open_research_agent.Config.{Config, default_config}
use open_research_agent.Config.Loading.{
  Environment, FileState, contents, Loaded, loaded, load_failed, or_text, or_int, or_float, or_port,
  apply_defaults, override_from_env, settled, load, or_default, load_or_default, save,
}
use open_research_agent.Config.Validity.{IsLoaded, load_iff}

-- A default that an override follows is applied once, however often both are.
or_text-again :
    (set value default : String)
    → or_text set (or_text (or_text set (or_text value default)) default)
      ≡ or_text set (or_text value default)
or_text-again set value default = ground arith

or_text-twice : (set value : String) → or_text set (or_text set value) ≡ or_text set value
or_text-twice set value = ground arith

or_int-again : (value default : ℤ) → or_int (or_int value default) default ≡ or_int value default
or_int-again value default = ground arith

or_float-again :
    (value default : Float64) → or_float (or_float value default) default ≡ or_float value default
or_float-again value default = ground arith

or_port-again :
    (scanned : Option ℤ) (port : ℤ) → or_port scanned (or_port scanned port) ≡ or_port scanned port
or_port-again none port = refl
or_port-again (some n) port = refl

settled-again : (env : Environment) (c : Config) → settled env (settled env c) ≡ settled env c
unfolding settled apply_defaults override_from_env
settled-again env c =
    rw
      (
        or_text-again (env.getenv "OLLAMA_BASE_URL") c.ollama.base_url
            default_config.ollama.base_url,
        or_text-again (env.getenv "OLLAMA_MODEL") c.ollama.model default_config.ollama.model,
        or_float-again c.ollama.temperature default_config.ollama.temperature,
        or_int-again c.ollama.max_tokens default_config.ollama.max_tokens,
        or_int-again c.research.max_concurrency default_config.research.max_concurrency,
        or_int-again c.research.max_iterations default_config.research.max_iterations,
        or_text-twice (env.getenv "OTEL_EXPORTER_OTLP_ENDPOINT") c.observability.tracing.endpoint,
      )
      (elim (Bool-cases (str_eq (env.getenv "API_PORT") "")) [
        | inl e ↦ rw e refl
        | inr e ↦ rw (e, or_port-again (env.scan_int (env.getenv "API_PORT")) c.api.port) refl
      ])

-- A configuration that was loaded, and is saved and loaded again in the same environment, comes back
-- as it was, when the YAML library reads back what it has written.
pub load-save_unchanged :
    (env : Environment) (file : FileState) (c : Config) (text : Bytes)
    → load env file ≡ loaded c
    → env.marshal c ≡ some text
    → env.unmarshal text ≡ some c
    → load env (save env c file) ≡ loaded c
unfolding save
load-save_unchanged env file c text l m u =
    let v = (load_iff env file c).0 l in
    rw (m, save)
      ((load_iff env (contents text) c).1 (record {
        text = text;
        parsed = c;
        was_read = refl;
        was_parsed = u;
        was_settled = subst (λ d. settled env d ≡ d) v.was_settled (settled-again env v.parsed);
        valid = v.valid;
      }))

settled_timeout :
    (env : Environment) (parsed : Config)
    → (settled env parsed).research.timeout ≡ parsed.research.timeout
unfolding settled apply_defaults override_from_env
settled_timeout env parsed = refl

-- The loader never returns what a file says that leaves the timeout out.
or_default-failed :
    (env : Environment) (o : Loaded)
    → ((c : Config) → o ≡ loaded c → ⊥)
    → or_default env o ≡ default_config
unfolding or_default
or_default-failed env (loaded c) h = absurd (h c refl)
or_default-failed env (load_failed err) h = refl

timeout-⊥ :
    (env : Environment) (text : Bytes) (parsed c : Config)
    → env.unmarshal text ≡ some parsed
    → parsed.research.timeout ≡ ""
    → env.parse_duration "" ≡ none
    → IsLoaded env (contents text) c
    → ⊥
timeout-⊥ env text parsed c u t p v =
    let same_text : v.text ≡ text = cc in
    let same_parsed : v.parsed ≡ parsed = cc in
    let kept : c.research.timeout ≡ parsed.research.timeout =
      ap (λ d. d.research.timeout) (sym v.was_settled)
      ∙ settled_timeout env v.parsed
      ∙ ap (λ d. d.research.timeout) same_parsed in
    let (d, parses) = v.valid.timeout_parses in cc

-- A file that sets no research timeout is thrown away as a whole: no default is applied to that field
-- and the empty text does not parse as a duration, so loading fails and the program starts with the
-- default configuration, whatever else the file and the environment say.
pub load_or_default-without_timeout :
    (env : Environment) (text : Bytes) (parsed : Config)
    → env.unmarshal text ≡ some parsed
    → parsed.research.timeout ≡ ""
    → env.parse_duration "" ≡ none
    → load_or_default env (contents text) ≡ default_config
unfolding load_or_default
load_or_default-without_timeout env text parsed u t p =
    or_default-failed env (load env (contents text))
      (λ c l. timeout-⊥ env text parsed c u t p ((load_iff env (contents text) c).0 l))
