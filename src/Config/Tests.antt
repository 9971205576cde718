-- ===== src/Config/Tests.antt =====
-- Command lines with a YAML file in the form of the presets under configs/, and the theorems at them.
use vllm_rocm.Common.{
  ◌≡◌, refl, Option, none, some, List, [], ◌∷◌, Chars, codes, same, replace_char, split_at, last_of,
  Result, return, raise, system_exit, file_not_found, if◌then◌else◌,
}
use vllm_rocm.Config.{text, number, defaults, server_defaults}
use vllm_rocm.Config.Flags.{
  Flag, host, Namespace, is_choice, set_option, set_file, accepts, initial, parse_args, set_server,
  server_part, parse_known_args,
}
use vllm_rocm.Config.Cli.{
  Yaml, fill, override, base_name, from_namespace, from_parsed, from_cli, server_from_cli,
}
use vllm_rocm.Config.Overrides.{given, completed, from_cli-completed, from_cli-server_from_cli}

program : Unit {0}
unfolding same replace_char split_at last_of is_choice set_option set_file accepts parse_args
    set_server server_part parse_known_args fill override base_name from_namespace from_parsed
    from_cli server_from_cli given
program = tt

abbrev preset : Yaml
preset =
    (codes "model", some (text (codes "meta-llama/Meta-Llama-3-70B-Instruct")))
    ∷ (codes "quantization", none)
    ∷ (codes "block_size", some (number 32))
    ∷ (codes "quantization", some (text (codes "fp8")))
    ∷ (codes "hf-token", some (text (codes "secret")))
    ∷ []

abbrev disk : Chars → Result (Option Yaml)
disk path = if same path (codes "p.yml") then return (some preset) else raise file_not_found

abbrev flags : List Flag
flags = Flag.config (codes "p.yml") ∷ Flag.model (codes "org/small") ∷ Flag.seed 7 ∷ []

abbrev parsed : Namespace
parsed = record {
  options = record defaults { model = codes "org/small"; seed = 7 };
  config_file = some (codes "p.yml");
}

-- The file sets the quantization and the token; its model and its block size are ignored.
preset_run :
    from_cli disk flags
    ≡ return (record defaults {
      model = codes "org/small";
      seed = 7;
      quantization = some (text (codes "fp8"));
      huggingface_hub_token = some (text (codes "secret"));
      model_name = codes "small";
    })
unfolding program
preset_run = refl

missing_run : from_cli disk (Flag.config (codes "q.yml") ∷ []) ≡ raise file_not_found
unfolding program
missing_run = refl

refused_run :
    (from_cli disk (Flag.server (host (codes "::1")) ∷ []) ≡ raise system_exit)
    × (from_cli disk (Flag.quantization (codes "int2") ∷ []) ≡ raise system_exit)
unfolding program
refused_run = (refl, refl)

parse_args-flags : parse_args flags initial ≡ some parsed
unfolding program
parse_args-flags = refl

read_preset : disk (codes "p.yml") ≡ return (some preset)
unfolding program
read_preset = refl

from_cli-completed_example :
    from_cli disk flags
    ≡ return
        (record (completed preset parsed.options) { model_name = base_name (codes "org/small") })
from_cli-completed_example =
    from_cli-completed disk flags parsed (some preset) parse_args-flags refl read_preset

accepted_seed :
    from_cli disk (Flag.seed 7 ∷ [])
    ≡ return (record defaults { seed = 7; model_name = codes "Meta-Llama-3-8B-Instruct" })
unfolding program
accepted_seed = refl

from_cli-server_from_cli_example : server_from_cli (Flag.seed 7 ∷ []) ≡ server_defaults
from_cli-server_from_cli_example =
    from_cli-server_from_cli disk (Flag.seed 7 ∷ [])
      (record defaults { seed = 7; model_name = codes "Meta-Llama-3-8B-Instruct" }) accepted_seed
