-- ===== src/Adapter/Settings/Resume.antt =====
-- What NewAdapter decides about resuming: WithResume of internal/protocol/adapter.go, and
-- applyAdapterOptions and resumeEnabled of internal/protocol/adapter_resume.go. time.ParseDuration is
-- a parameter.
use session_proxy.Prelude.{
  ℕ, ◌≡◌, Bool, true, false, ◌&&◌, not, List, [], ◌∷◌, Option, none, some, ◌==◌, if◌then◌else◌,
  refl, arith, Option-cases, inl, inr,
}
use session_proxy.Prelude.Bytes.{Bytes, codes, is_nil, eq_bytes}
use session_proxy.Prelude.Int64.{Int64, slt}
use session_proxy.Adapter.Resuming.{default_resume_budget}

-- The fields of the adapter: whether resumeFunc is set, and the others.
pub record ResumeSettings : Type 0 where
  pub resume_func : Bool
  pub resume_disabled : Bool
  pub budget : Int64
  pub first_gen : ℕ

-- An AdapterOption, none for nil.
abbrev pub AdapterOption : Type 0
AdapterOption = Option (ResumeSettings → ResumeSettings)

-- WithResume of a function that is not nil.
unfoldable pub with_resume : AdapterOption
with_resume = some (λ a. record a { resume_func = true })

unfoldable pub apply_options : List AdapterOption → ResumeSettings → ResumeSettings
apply_options [] a = a
apply_options (none ∷ opts) a = apply_options opts a
apply_options (some opt ∷ opts) a = apply_options opts (opt a)

-- The budget by SESSION_PROXY_SSM_RESUME_BUDGET.
unfoldable pub budget_of : (Bytes → Option Int64) → Bytes → Int64
budget_of parse v = if is_nil v then default_resume_budget else elim (parse v) [
  | none ↦ default_resume_budget
  | some d ↦ if slt 0 d then d else default_resume_budget
]

-- applyAdapterOptions; `switch` is SESSION_PROXY_SSM_RESUME.
unfoldable pub apply_adapter_options :
    (Bytes → Option Int64) → Bytes → Bytes → List AdapterOption → ResumeSettings → ResumeSettings
unfolding apply_options budget_of
apply_adapter_options parse v switch opts a =
    let b = apply_options opts a in
    record b {
      budget = budget_of parse v;
      resume_disabled = if eq_bytes switch (codes "off") then true else b.resume_disabled;
      first_gen = if b.first_gen == 0 then 1 else b.first_gen;
    }

-- resumeEnabled
unfoldable pub resume_enabled : ResumeSettings → Bool
resume_enabled a = a.resume_func && not a.resume_disabled

-- An adapter as NewAdapter allocates it.
abbrev pub fresh_settings : ResumeSettings
fresh_settings = record { resume_func = false; resume_disabled = false; budget = 0; first_gen = 1 }

budget_of-positive : (parse : Bytes → Option Int64) (v : Bytes) → slt 0 (budget_of parse v) ≡ true
unfolding budget_of
budget_of-positive parse v = elim (Option-cases (parse v)) [
  | inl e ↦ ground (arith, e)
  | inr (n, e) ↦ ground (arith, e)
]

-- Whatever the environment says: an adapter with WithResume resumes exactly where the variable does
-- not say off, it has a positive budget, and its first WebSocket is generation 1.
resume_settings :
    (parse : Bytes → Option Int64) (v switch : Bytes)
    → let a = apply_adapter_options parse v switch (with_resume ∷ []) fresh_settings in
      (resume_enabled a ≡ not (eq_bytes switch (codes "off")))
      × (slt 0 a.budget ≡ true)
      × (a.first_gen ≡ 1)
unfolding apply_adapter_options apply_options with_resume resume_enabled
resume_settings parse v switch = (ground arith, budget_of-positive parse v, refl)
