-- ===== src/Config/Overrides.antt =====
-- src/config.py: what a YAML file overrides, and which command lines are refused.
use vllm_rocm.Common.{
  ◌≡◌, refl, ap, ◌∙◌, true, false, Option, none, some, List, [], ◌∷◌, inl, inr, Chars, codes, same,
  same-eq, if◌then◌else◌, Bool-cases, Result, return,
}
use vllm_rocm.Config.{Value, EngineConfig, ServerConfig, server_defaults}
use mathlib.Core.Option.{none-ne-some}
use vllm_rocm.Config.Flags.{
  Flag, Namespace, accepts, set_option, set_file, initial, parse_args, parse_known_args,
  server_part,
}
use vllm_rocm.Config.Cli.{
  Yaml, or_else, fill, attr_of, override, from_parsed, server_from_cli, or_empty, is_given, path_of,
  base_name, from_namespace, from_cli,
}

-- The first value of an attribute in a file that is not null.
unfoldable pub given : Chars → Yaml → Option Value
given attr [] = none
given attr ((k, v) ∷ yml) =
    let rest = given attr yml in if same (attr_of k) attr then or_else v rest else rest

abbrev quantization_key : Chars
quantization_key = codes "quantization"

abbrev token_key : Chars
token_key = codes "hf_token"

-- The configuration with those two attributes from a file where they were None.
abbrev pub completed : Yaml → EngineConfig → EngineConfig
completed yml c = record c {
  quantization = or_else c.quantization (given quantization_key yml);
  huggingface_hub_token = or_else c.huggingface_hub_token (given token_key yml);
}

or_else_assoc : (u v w : Option Value) → or_else (or_else u v) w ≡ or_else u (or_else v w)
or_else_assoc none v w = refl
or_else_assoc (some x) v w = refl

or_else-none : (u : Option Value) → or_else u none ≡ u
or_else-none none = refl
or_else-none (some x) = refl

keys_differ : (t : Chars) → same t quantization_key ≡ true → same t token_key ≡ false
unfolding same
keys_differ t h = rw (same-eq t quantization_key h) refl

fill-completed :
    (k : Chars) (v : Option Value) (yml : Yaml) (c : EngineConfig)
    → completed yml (fill (attr_of k) v c) ≡ completed ((k, v) ∷ yml) c
unfolding fill given
fill-completed k v yml c = elim (Bool-cases (same (attr_of k) quantization_key)) [
  | inl q ↦
      rw (q, keys_differ (attr_of k) q)
        (ap
          (λ u. record c {
            quantization = u;
            huggingface_hub_token = or_else c.huggingface_hub_token (given token_key yml);
          })
          (or_else_assoc c.quantization v (given quantization_key yml)))
  | inr q ↦ elim (Bool-cases (same (attr_of k) token_key)) [
    | inl t ↦
        rw (q, t)
          (ap
            (λ u. record c {
              quantization = or_else c.quantization (given quantization_key yml);
              huggingface_hub_token = u;
            })
            (or_else_assoc c.huggingface_hub_token v (given token_key yml)))
    | inr t ↦ rw (q, t) refl
  ]
]

override-completed : (yml : Yaml) (c : EngineConfig) → override yml c ≡ completed yml c
unfolding override given
override-completed [] c = cc (or_else-none c.quantization, or_else-none c.huggingface_hub_token)
override-completed ((k, v) ∷ yml) c =
    override-completed yml (fill (attr_of k) v c) ∙ fill-completed k v yml c

-- Where the command line is accepted as `n` and names a file that is read as `yml`, the
-- configuration is that of the command line but for three attributes: `quantization` and
-- `huggingface_hub_token` are the first value of the file if no option sets them, and `model_name`
-- is the last part of the model's path. Every other entry of the file is ignored.
pub from_cli-completed :
    (read_yaml : Chars → Result (Option Yaml)) (flags : List Flag) (n : Namespace)
    (yml : Option Yaml)
    → parse_args flags initial ≡ some n
    → is_given n.config_file ≡ true
    → read_yaml (path_of n.config_file) ≡ return yml
    → from_cli read_yaml flags
      ≡ return
          (record (completed (or_empty yml) n.options) { model_name = base_name n.options.model })
unfolding from_cli from_parsed from_namespace
from_cli-completed read_yaml flags n yml p g r =
    ap (from_parsed read_yaml) p ∙ rw (g, r) (rw (override-completed (or_empty yml) n.options) refl)

server_part_accepted : (f : Flag) (c : ServerConfig) → accepts f ≡ true → server_part f c ≡ c
unfolding accepts server_part
server_part_accepted (Flag.server f) c h = absurd (cc)
server_part_accepted f c h = refl

-- An accepted command line has no option of the server.
accepted_defaults :
    (flags : List Flag) (n m : Namespace) (c : ServerConfig)
    → parse_args flags n ≡ some m
    → parse_known_args flags c ≡ c
unfolding parse_args parse_known_args
accepted_defaults [] n m c h = refl
accepted_defaults (f ∷ fs) n m c h = elim (Bool-cases (accepts f)) [
  | inl e ↦ rw (server_part_accepted f c e) (
      accepted_defaults fs
        (record { options = set_option f n.options; config_file = set_file f n.config_file }) m c
        (rw e at h))
  | inr e ↦ let refused : none ≡ some m = rw e at h in absurd (none-ne-some m refused)
]

accepted :
    (read_yaml : Chars → Result (Option Yaml)) (o : Option Namespace) (c : EngineConfig)
    → from_parsed read_yaml o ≡ return c
    → (m : Namespace) × (o ≡ some m)
unfolding from_parsed
accepted read_yaml none c h = absurd (cc)
accepted read_yaml (some m) c h = (m, refl)

-- Both classes read the command line of the one process. Where it gives a configuration of the
-- engine, that of the server is its defaults: no option can set host, port or log level.
pub from_cli-server_from_cli :
    (read_yaml : Chars → Result (Option Yaml)) (flags : List Flag) (c : EngineConfig)
    → from_cli read_yaml flags ≡ return c
    → server_from_cli flags ≡ server_defaults
unfolding from_cli server_from_cli
from_cli-server_from_cli read_yaml flags c h =
    let (m, p) = accepted read_yaml (parse_args flags initial) c h in
    accepted_defaults flags initial m server_defaults p
