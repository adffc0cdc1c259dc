-- ===== src/Tools/Safety.antt =====
-- The registry is fail-closed: what it holds, and what it takes to run a tool.
use dayu_water_agent.Prelude.{
  ℕ, ◌<◌, String, ◌≡◌, refl, Bool, true, false, not, ◌&&◌, Option, none, some, List, arith, eq_iff,
  ◌==◌, inl, inr, Option-cases, Bool-cases,
}
use dayu_water_agent.Dict.{get, put}
use dayu_water_agent.Dict.Laws.{Distinct, get-put, put-Distinct, get-remove, remove-Distinct}
use dayu_water_agent.Json.{Json}
use dayu_water_agent.Errors.{Failure, ok, err, Result-cases}
use dayu_water_agent.Tools.Defs.{
  ToolPermission, ToolDefinition, ToolExecutionResult, returned, is_dangerous_permission,
  is_dangerous_risk, ToolRiskLevel, permission_in, confirmation_required_permissions,
}
use dayu_water_agent.Tools.Names.{name_matches}
use dayu_water_agent.Tools.Registry.{
  ToolRegistry, register, unregister, execute, allowed_permissions,
}

abbrev dangerous_permission : Option ToolPermission → Bool
dangerous_permission none = true
dangerous_permission (some p) = is_dangerous_permission p

abbrev dangerous_risk : Option ToolRiskLevel → Bool
dangerous_risk none = true
dangerous_risk (some l) = is_dangerous_risk l

-- A tool that may be in a registry under the name `name`.
pub record IsSafeTool (name : String) (t : ToolDefinition) : Type 0 where
  pub key : t.name ≡ name
  pub named : name_matches t.name ≡ true
  pub bounded : 0 < t.timeout_seconds
  pub modelled : (t.input_model.is_model && t.output_model.is_model) ≡ true
  pub permission : dangerous_permission t.permission ≡ false
  pub risk : dangerous_risk t.risk_level ≡ false

pub record IsSafe (reg : ToolRegistry) : Type 0 where
  pub distinct : Distinct reg.tools
  pub tools : (name : String) (t : ToolDefinition) → get reg.tools name ≡ some t → IsSafeTool name t

-- A registration succeeds only for a safe tool under a free name, which is then entered.
pub register-ok :
    (t : ToolDefinition) (reg : ToolRegistry)
    → (register t reg).0 ≡ ok tt
    → IsSafeTool t.name t
      × (get reg.tools t.name ≡ none)
      × ((register t reg).1 ≡ record reg { tools = put reg.tools t.name t })
unfolding register
register-ok t reg h = (
  record {
    key = refl;
    named = ground arith;
    bounded = ground arith;
    modelled = ground arith;
    permission = ground arith;
    risk = ground arith;
  },
  ground arith,
  ground arith,
)

register-err :
    (t : ToolDefinition) (reg : ToolRegistry) {e : Failure}
    → (register t reg).0 ≡ err e
    → (register t reg).1 ≡ reg
unfolding register
register-err t reg h = ground arith

put-IsSafe :
    (t : ToolDefinition) (reg : ToolRegistry)
    → IsSafe reg
    → IsSafeTool t.name t
    → IsSafe (record reg { tools = put reg.tools t.name t })
put-IsSafe t reg v safe = record {
  distinct = put-Distinct reg.tools t.name t v.distinct;
  tools = λ name u e. elim (Bool-cases (t.name == name)) [
    | inl same ↦
        let k : t.name ≡ name = (eq_iff t.name name).0 same in
        let w : t ≡ u = ground (arith, get-put reg.tools t.name name t) in rw (← k) (rw (← w) safe)
    | inr other ↦ v.tools name u (ground (arith, get-put reg.tools t.name name t))
  ];
}

unregister-IsSafe :
    (name : String) (reg : ToolRegistry) → IsSafe reg → IsSafe (unregister name reg).1
unfolding unregister
unregister-IsSafe name reg v = elim (Option-cases (get reg.tools name)) [
  | inl n ↦ rw (n, unregister) v
  | inr (t, e) ↦
      rw (e, unregister)
        (record {
          distinct = remove-Distinct reg.tools name v.distinct;
          tools = λ k u h. v.tools k u (ground (arith, get-remove reg.tools name k v.distinct));
        })
]

-- Registering and removing tools keep a safe registry safe: every tool that it holds is named by
-- the pattern, bounded in time, typed by models, and of a known permission and risk, neither
-- dangerous.
pub registry-IsSafe :
    (t : ToolDefinition) (name : String) (reg : ToolRegistry)
    → IsSafe reg
    → IsSafe (register t reg).1 × IsSafe (unregister name reg).1
registry-IsSafe t name reg v = (
  elim (Result-cases (register t reg).0) [
    | inl (_, h) ↦ let (safe, _, after) = register-ok t reg h in rw after (put-IsSafe t reg v safe)
    | inr (e, h) ↦ rw (register-err t reg h) v
  ],
  unregister-IsSafe name reg v,
)

-- What a successful execution shows of its tool.
abbrev pub Executed :
    String → Json → List ToolPermission → Bool → ToolDefinition → ToolExecutionResult → Type 0
Executed name payload allowed confirmed t out =
    (permission : ToolPermission) × (input : Json) × (raw : Json) × (output : Json) × (t.permission
      ≡ some permission)
    × (permission_in permission allowed ≡ true)
    × ((permission_in permission confirmation_required_permissions && not confirmed) ≡ false)
    × (t.input_model.model_validate payload ≡ some input)
    × (t.handler input ≡ returned raw)
    × (t.output_model.model_validate raw ≡ some output)
    × (out.output ≡ t.output_model.model_dump output)

-- A tool runs only if it is registered, its permission is allowed, and a modifying or executing
-- tool is confirmed; it runs on the validated payload, and its validated output is what is
-- returned.
pub execute-Executed :
    (name : String) (payload : Json) (granted : Option (List ToolPermission)) (confirmed : Bool)
    (duration : ℕ) (reg : ToolRegistry) (out : ToolExecutionResult)
    → execute name payload granted confirmed duration reg ≡ ok out
    → (t : ToolDefinition) × (get reg.tools name ≡ some t)
      × Executed name payload (allowed_permissions reg granted) confirmed t out
unfolding execute
execute-Executed name payload granted confirmed duration reg out h = ground arith
