-- ===== src/Config/Cli.antt =====
-- src/config.py: `from_cli`. Reading the YAML file is a parameter: it fails, or gives what
-- `yaml.safe_load` makes of the file, which is None for an empty one.
use vllm_rocm.Common.{
  Bool, false, Option, none, some, List, [], ◌∷◌, Chars, codes, same, replace_char, split_at,
  last_of, length, ltb, if◌then◌else◌, Result, return, raise, system_exit,
}
use vllm_rocm.Config.{Value, EngineConfig, ServerConfig, server_defaults}
use vllm_rocm.Config.Flags.{Flag, Namespace, initial, parse_args, parse_known_args}

-- The entries of a YAML map, whose keys are texts; a value may be null.
abbrev pub Yaml : Type 0
Yaml = List (Chars × Option Value)

abbrev pub or_else : Option Value → Option Value → Option Value
or_else none w = w
or_else (some v) w = some v

-- The body of the loop over the file. Of the parser's attributes only `quantization` and `hf_token`
-- can be None here: the others have defaults, and `config` names the file.
unfoldable pub fill : Chars → Option Value → EngineConfig → EngineConfig
fill attr v c =
    if same attr (codes "quantization")
    then record c { quantization = or_else c.quantization v }
    else if same attr (codes "hf_token")
    then record c { huggingface_hub_token = or_else c.huggingface_hub_token v }
    else c

abbrev pub attr_of : Chars → Chars
attr_of k = replace_char b'-' b'_' k

unfoldable pub override : Yaml → EngineConfig → EngineConfig
override [] c = c
override ((k, v) ∷ yml) c = override yml (fill (attr_of k) v c)

-- `yml or {}`
abbrev pub or_empty : Option Yaml → Yaml
or_empty none = []
or_empty (some yml) = yml

-- `if parsed.config`, for a file's name
abbrev pub is_given : Option Chars → Bool
is_given none = false
is_given (some path) = ltb 0 (length path)

abbrev pub path_of : Option Chars → Chars
path_of none = []
path_of (some path) = path

unfoldable pub base_name : Chars → Chars
base_name model = let (part, parts) = split_at b'/' model in last_of part parts

abbrev pub named : EngineConfig → EngineConfig
named c = record c { model_name = base_name c.model }

abbrev pub overridden : EngineConfig → Result (Option Yaml) → Result EngineConfig
overridden c (raise e) = raise e
overridden c (return yml) = return (named (override (or_empty yml) c))

module _ (read_yaml : Chars → Result (Option Yaml)) where
  unfoldable pub from_namespace : Namespace → Result EngineConfig
  from_namespace n =
      if is_given n.config_file
      then overridden n.options (read_yaml (path_of n.config_file))
      else return (named n.options)

  -- What is made of the parser's answer, which leaves the process at an error.
  unfoldable pub from_parsed : Option Namespace → Result EngineConfig
  from_parsed none = raise system_exit
  from_parsed (some n) = from_namespace n

  unfoldable pub from_cli : List Flag → Result EngineConfig
  from_cli flags = from_parsed (parse_args flags initial)

unfoldable pub server_from_cli : List Flag → ServerConfig
server_from_cli flags = parse_known_args flags server_defaults
