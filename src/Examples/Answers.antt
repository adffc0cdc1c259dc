-- ===== src/Examples/Answers.antt =====
-- Inputs at which the results on the work of a run apply.
use dayu_water_agent.Prelude.{
  String, ◌==◌, if◌then◌else◌, ◌≡◌, refl, true, Option, none, some, arith,
}
use dayu_water_agent.Json.{Json, object, end_fields}
use dayu_water_agent.Errors.{ok}
use dayu_water_agent.Memory.Calls.{now}
use dayu_water_agent.Supervisor.Commands.{parse_tool_command}
use dayu_water_agent.Supervisor.Spoken.{tool_text, has_no_space, parse_tool_command_roundtrip}
use dayu_water_agent.Supervisor.Answer.{Worker, answer}
use dayu_water_agent.Supervisor.Answering.{IsSound, answer-IsSound}
use dayu_water_agent.Guardrails.{is_space}
use dayu_water_agent.Examples.Floats.{whole, budget}
use dayu_water_agent.Examples.Scenes.{running_store}
use dayu_water_agent.Examples.Registries.{settings, one_tool, context, dumps}
use dayu_water_agent.Examples.Tasks.{slow, running-Attempted}

-- A library that knows the empty object only.
abbrev loads : String → Option Json
loads text = if text == "{}" then some (object end_fields) else none

parse_tool_command_roundtrip_example :
    parse_tool_command loads (tool_text "system.echo" "{}")
    ≡ ok (some ("system.echo", object end_fields))
unfolding has_no_space is_space
parse_tool_command_roundtrip_example =
    parse_tool_command_roundtrip loads "system.echo" "{}" end_fields refl refl refl

abbrev worker : Worker whole
worker = record {
  settings = settings;
  registry = one_tool;
  budget = budget;
  loads = loads;
  dumps = dumps;
  duration = 1;
  script = λ request n. slow;
}

answer-IsSound_example :
    IsSound whole worker context running_store
      (answer whole worker context "question" true "run-1" 2 running_store)
answer-IsSound_example =
    answer-IsSound whole worker context true "run-1" 2 (λ request k. ((λ s. now), ((λ s. now), tt)))
      (omega arith) (omega arith) "question" running_store running-Attempted
