-- ===== src/Engine.antt =====
-- src/engine.py. What `AutoTokenizer` and the modules `src.models.loader` and `src.models.quantizer`,
-- which the repository does not hold, bring is a parameter; so is the memory that the block manager
-- finds. A coroutine is cut where it waits: `submit` is `generate_text` up to the future, `collect`
-- what it does with the result; `generate_text` runs the event loop in between. The KV cache, which no
-- method of the engine reads, is left out.
pub mod Loop
pub mod Batch
pub mod Answers
pub mod Lifecycle
mod Tests
use Prim.Native.String.{String}
use package.text.Mathlib.Text.{◌==◌ as same_text}
use vllm_rocm.Common.{
  ℕ, zero, suc, ◌-◌, Bool, true, false, ◌&&◌, not, Option, none, some, List, [], ◌∷◌, length, drop,
  ltb, ◌==◌, if◌then◌else◌, Chars, starts_with, strip, Result, return, raise, runtime_error,
  attribute_error, Action, pure, update, ◌>>=◌, ◌>>◌,
}
use vllm_rocm.Config.{Value, text, number, truth, entries, EngineConfig}
use vllm_rocm.Config.Cli.{base_name}
use vllm_rocm.Scheduler.{SequenceGroup, Scheduler, new_group, add_request, schedule_tick, take_tick}
use mathlib.Core.Option
use vllm_rocm.Scheduler.History.{start as new_scheduler}

pub record ChatMessage : Type 0 where
  pub role : Chars
  pub content : Chars

-- A tokenizer of transformers; `decode` skips the special tokens.
pub record Tokenizer : Type 0 where
  pub encode : Chars → List ℕ
  pub decode : List ℕ → Chars
  pub apply_chat_template : List ChatMessage → Chars
  pub pad_token : Option Chars
  pub eos_token : Option Chars

pub record Platform (Model : Type 0) : Type 0 where
  pub from_pretrained : Chars → Bool → Option Value → Result Tokenizer
  pub load : EngineConfig → Result Model
  pub quantize_model : Model → Value → Result Model
  pub available : Option ℕ

-- An attribute of the engine that holds a model or None, or was deleted.
pub data Attribute (A : Type 0) : Type 0 where
  deleted : Attribute A
  nothing : Attribute A
  holds : A → Attribute A

-- The scheduler's record holds the block manager, which is one object for both.
pub record InferenceEngine (Model : Type 0) : Type 0 where
  pub config : EngineConfig
  pub model_name : Chars
  pub tokenizer : Option Tokenizer
  pub model : Attribute Model
  pub scheduler : Option Scheduler
  pub started : Bool

-- The `stop` of a request: None, a text or a list.
pub data Stop : Type 0 where
  no_stop : Stop
  stop_text : Chars → Stop
  stop_list : List Chars → Stop

abbrev pub stops : Stop → List Chars
stops no_stop = []
stops (stop_text t) = if ltb 0 (length t) then t ∷ [] else []
stops (stop_list ts) = ts

-- Python's truth of a value that may be None.
abbrev pub is_true : Option Value → Bool
is_true none = false
is_true (some (text t)) = ltb 0 (length t)
is_true (some (number n)) = ltb 0 n
is_true (some (truth b)) = b
is_true (some (entries n)) = ltb 0 n

abbrev pub padded : Tokenizer → Tokenizer
padded tok = elim tok.pad_token [ none ↦ record tok { pad_token = tok.eos_token } | some t ↦ tok ]

abbrev pub value_of : Option Value → Value
value_of none = text []
value_of (some v) = v

-- The group that `generate_text` makes; its id is made of the prompt's address.
abbrev pub request : Tokenizer → String → Chars → ℕ → Stop → SequenceGroup
request tok request_id prompt max_tokens stop =
    new_group request_id (length (tok.encode prompt)) max_tokens (stops stop)

-- What it makes of the future's result.
unfoldable pub collect : Tokenizer → Chars → List ℕ → Chars
collect tok prompt result =
    let output_text = tok.decode result in
    strip (if starts_with prompt output_text then drop (length prompt) output_text else output_text)

module _ {Model : Type 0} where
  abbrev pub init : EngineConfig → InferenceEngine Model
  init config = record {
    config = config;
    model_name =
        if ltb 0 (length config.model_name) then config.model_name else base_name config.model;
    tokenizer = none;
    model = nothing;
    scheduler = none;
    started = false;
  }

  -- A call that only reads the configuration, and may raise.
  abbrev pub call : {A : Type 0} → Result A → Action (InferenceEngine Model) A
  call r e = (r, e)

  module _ (platform : Platform Model) where
    unfoldable pub load_tokenizer : EngineConfig → Result Tokenizer
    load_tokenizer c =
        elim (platform.from_pretrained c.model c.trust_remote_code c.huggingface_hub_token) [
          | return tok ↦ return (padded tok)
          | raise x ↦ raise x
        ]

    unfoldable pub load_model : EngineConfig → Result Model
    load_model c = elim (platform.load c) [
      | return model ↦
          if is_true c.quantization
          then platform.quantize_model model (value_of c.quantization)
          else return model
      | raise x ↦ raise x
    ]

    unfoldable pub start : Action (InferenceEngine Model) (Unit {0})
    start e =
        (do
          tok ← call (load_tokenizer e.config)
          update (λ e. record e { tokenizer = some tok })
          model ← call (load_model e.config)
          update (λ e. record e {
            model = holds model;
            scheduler = some (new_scheduler e.config platform.available);
            started = true;
          }))
          e

  -- `del self._model` leaves the engine without the attribute.
  abbrev pub delete_model : Attribute Model → Result (Attribute Model)
  delete_model deleted = raise attribute_error
  delete_model nothing = return nothing
  delete_model (holds m) = return deleted

  unfoldable pub shutdown : Action (InferenceEngine Model) (Unit {0})
  shutdown = do
    update (λ e. record e { started = false })
    λ e. elim (delete_model e.model) [
      | return m ↦ (return tt, record e { model = m })
      | raise x ↦ (raise x, e)
    ]

  -- A call on `self._scheduler`.
  unfoldable pub with_scheduler :
      {A : Type 0} → Action Scheduler A → Action (InferenceEngine Model) A
  with_scheduler act e = elim e.scheduler [
    | none ↦ (raise attribute_error, e)
    | some s ↦ let (r, s') = act s in (r, record e { scheduler = some s' })
  ]

  -- `generate_text` up to the future.
  unfoldable pub submit : String → Chars → ℕ → Stop → Action (InferenceEngine Model) (Unit {0})
  submit request_id prompt max_tokens stop e =
      if not e.started then (raise runtime_error, e) else elim e.tokenizer [
        | none ↦ (raise attribute_error, e)
        | some tok ↦ with_scheduler (add_request (request tok request_id prompt max_tokens stop)) e
      ]

  -- `generate_chat` up to the future: the tokenizer is asked first.
  unfoldable pub submit_chat :
      String → List ChatMessage → ℕ → Stop → Action (InferenceEngine Model) (Unit {0})
  submit_chat request_id messages max_tokens stop e = elim e.tokenizer [
    | none ↦ (raise attribute_error, e)
    | some tok ↦ submit request_id (tok.apply_chat_template messages) max_tokens stop e
  ]

-- The result of the future of the last group of an id that has left.
unfoldable pub future_of : String → List SequenceGroup → Option (List ℕ)
future_of request_id [] = none
future_of request_id (g ∷ gs) = elim (future_of request_id gs) [
  | some result ↦ some result
  | none ↦ if same_text g.request_id request_id then g.completion_future else none
]

-- The event loop for up to `n` rounds: it makes the calls that it was handed, and stops when none is due.
unfoldable pub run_due : ℕ → Action Scheduler (Unit {0})
run_due zero s = (return tt, s)
run_due (suc n) s =
    let rest = (schedule_tick >> run_due n) (take_tick s) in
    if s.ticks == 0 then (return tt, s) else rest

-- How many groups have left before.
abbrev pub num_done : {Model : Type 0} → InferenceEngine Model → ℕ
num_done e = elim e.scheduler [ none ↦ 0 | some s ↦ length s.done ]

-- The answer to the request of an address that was submitted when `before` groups had left: while it is
-- on its way no other has its address.
abbrev pub answer_of : {Model : Type 0} → ℕ → String → Chars → InferenceEngine Model → Option Chars
answer_of before request_id prompt e = elim e.tokenizer [
  | none ↦ none
  | some tok ↦ elim e.scheduler [
    | none ↦ none
    | some s ↦ Option.map (collect tok prompt) (future_of request_id (drop before s.done))
  ]
]

-- The whole of `generate_text` with the event loop run for up to `n` rounds; with none, the request
-- still waits for its future.
unfoldable pub generate_text :
    {Model : Type 0} → ℕ → String → Chars → ℕ → Stop → Action (InferenceEngine Model) (Option Chars)
generate_text n request_id prompt max_tokens stop e =
    (do
      submit request_id prompt max_tokens stop
      with_scheduler (run_due n)
      λ after. (return (answer_of (num_done e) request_id prompt after), after))
      e
