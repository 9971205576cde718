-- ===== src/Server.antt =====
-- src/api_server.py. A handler is an action on the global `engine`, which is None before the start; the
-- event loop runs for a number of rounds while it waits. The JSON that is sent is the record that it
-- encodes. Times and sampling parameters are left out, the ids that `uuid` and the addresses of texts
-- bring are arguments.
pub mod Streaming
pub mod Chats
pub mod Futures
pub mod Queueing
pub mod Batches
pub mod Completions
pub mod Sessions
pub mod Lifespan
pub mod Serving
mod Tests
use Prim.Native.String.{String}
use mathlib.Core.Option
use vllm_rocm.Common.{
  ℕ, zero, suc, ◌+◌, Bool, true, false, Option, none, some, List, [], ◌∷◌, ◌++◌, map, length, snoc,
  leb, if◌then◌else◌, Chars, codes, split, Result, return, raise, http_exception, Action, pure,
  update, ◌>>=◌, ◌>>◌,
}
use vllm_rocm.Engine.{
  InferenceEngine, ChatMessage, Stop, submit, submit_chat, with_scheduler, run_due, num_done,
  answer_of,
}

pub record ChatCompletionRequest : Type 0 where
  pub model : Chars
  pub messages : List ChatMessage
  pub max_tokens : ℕ
  pub stream : Bool
  pub stop : Stop

-- `prompt` may be one text.
pub data Prompt : Type 0 where
  one : Chars → Prompt
  many : List Chars → Prompt

pub record CompletionRequest : Type 0 where
  pub model : Chars
  pub prompt : Prompt
  pub max_tokens : ℕ
  pub stop : Stop

pub record Usage : Type 0 where
  pub prompt_tokens : ℕ
  pub completion_tokens : ℕ
  pub total_tokens : ℕ

pub record Choice : Type 0 where
  pub index : ℕ
  pub text : Chars
  pub finish_reason : Chars

-- The answer to a chat or to a completion, with the texts of its choices.
pub record Response : Type 0 where
  pub id : String
  pub object : Chars
  pub model : Chars
  pub choices : List Choice
  pub usage : Usage

-- A chunk of a stream; `delta` is the content of the map, none where it has none.
pub record Chunk : Type 0 where
  pub id : String
  pub object : Chars
  pub model : Chars
  pub index : ℕ
  pub delta : Option Chars
  pub finish_reason : Option Chars

-- What stands behind `data: ` in an event of the stream.
pub data Event : Type 0 where
  chunk : Chunk → Event
  done : Event

-- What a handler answers with: the whole, or what it yields one after another.
pub data Reply : Type 0 where
  whole : Response → Reply
  streamed : List (List Event) → Reply

-- `len(text.split())`, and its sum over texts.
abbrev pub num_words : Chars → ℕ
num_words text = length (split text)

abbrev pub sum_words : List Chars → ℕ
sum_words [] = 0
sum_words (text ∷ texts) = num_words text + sum_words texts

abbrev pub usage_of : List Chars → List Chars → Usage
usage_of prompts results = record {
  prompt_tokens = sum_words prompts;
  completion_tokens = sum_words results;
  total_tokens = sum_words prompts + sum_words results;
}

abbrev pub make_choice : ℕ → Chars → Choice
make_choice i text = record { index = i; text = text; finish_reason = codes "stop" }

abbrev pub make_chat_response : String → Chars → Chars → Usage → Response
make_chat_response request_id model text usage = record {
  id = request_id;
  object = codes "chat.completion";
  model = model;
  choices = make_choice 0 text ∷ [];
  usage = usage;
}

abbrev pub make_chunk : String → Chars → Option Chars → Option Chars → Event
make_chunk request_id model delta finish_reason = chunk (record {
  id = request_id;
  object = codes "chat.completion.chunk";
  model = model;
  index = 0;
  delta = delta;
  finish_reason = finish_reason;
})

-- `token + " "`
abbrev pub spaced : Chars → Chars
spaced token = snoc token b' '

-- The loop of `_stream_chat`, and the two events of its last `yield`.
unfoldable pub stream_words : String → Chars → List Chars → List (List Event)
stream_words request_id model [] =
    (make_chunk request_id model none (some (codes "stop")) ∷ done ∷ []) ∷ []
stream_words request_id model (token ∷ tokens) =
    (make_chunk request_id model (some (spaced token)) none ∷ [])
    ∷ stream_words request_id model tokens

unfoldable pub stream_chat : String → Chars → Chars → List (List Event)
stream_chat request_id model text = stream_words request_id model (split text)

-- What `chat_completions` makes of the text.
unfoldable pub chat_reply : String → ChatCompletionRequest → Chars → Reply
chat_reply request_id request text =
    let usage = usage_of (map (λ m. m.content) request.messages) (text ∷ []) in
    if request.stream
    then streamed (stream_chat request_id request.model text)
    else whole (make_chat_response request_id request.model text usage)

-- `enumerate`
unfoldable pub choices_from : ℕ → List Chars → List Choice
choices_from i [] = []
choices_from i (text ∷ texts) = make_choice i text ∷ choices_from (suc i) texts

abbrev pub prompts_of : Prompt → List Chars
prompts_of (one prompt) = prompt ∷ []
prompts_of (many prompts) = prompts

unfoldable pub completion_response : String → CompletionRequest → List Chars → Response
completion_response request_id request results = record {
  id = request_id;
  object = codes "text_completion";
  model = request.model;
  choices = choices_from 0 results;
  usage = usage_of (prompts_of request.prompt) results;
}

-- Each prompt with its address.
unfoldable pub zip : List String → List Chars → List (String × Chars)
zip [] prompts = []
zip (a ∷ addresses) [] = []
zip (a ∷ addresses) (p ∷ prompts) = (a, p) ∷ zip addresses prompts

module _ {Model : Type 0} where
  -- A call on `engine`.
  unfoldable pub with_engine :
      {A : Type 0} → Action (InferenceEngine Model) A → Action (Option (InferenceEngine Model)) A
  with_engine act none = (raise http_exception, none)
  with_engine act (some e) = let (r, e') = act e in (r, some e')

  -- The prompt of a chat, which the tokenizer writes.
  abbrev pub chat_prompt : List ChatMessage → InferenceEngine Model → Chars
  chat_prompt messages e = elim e.tokenizer [
    | none ↦ []
    | some tok ↦ tok.apply_chat_template messages
  ]

  -- `generate_chat`, with the event loop run for up to `n` rounds.
  unfoldable pub generate_chat :
      ℕ → String → List ChatMessage → ℕ → Stop → Action (InferenceEngine Model) (Option Chars)
  generate_chat n address messages max_tokens stop e =
      (do
        submit_chat address messages max_tokens stop
        with_scheduler (run_due n)
        λ after. (return (answer_of (num_done e) address (chat_prompt messages e) after), after))
        e

  unfoldable pub chat_completions :
      ℕ
      → String
      → String
      → ChatCompletionRequest
      → Action (Option (InferenceEngine Model)) (Option Reply)
  chat_completions n request_id address request = do
    text ← with_engine (generate_chat n address request.messages request.max_tokens request.stop)
    pure (Option.map (chat_reply request_id request) text)

  -- The coroutines of `gather`: each runs up to its future, one after the other.
  unfoldable pub submit_all :
      List (String × Chars) → ℕ → Stop → Action (InferenceEngine Model) (Unit {0})
  submit_all [] max_tokens stop = pure tt
  submit_all ((address, prompt) ∷ rest) max_tokens stop = do
    submit address prompt max_tokens stop
    submit_all rest max_tokens stop

  -- The results, in the order of the prompts, if all are there; no group leaves while they are
  -- submitted.
  unfoldable pub answers : ℕ → List (String × Chars) → InferenceEngine Model → Option (List Chars)
  answers before [] e = some []
  answers before ((address, prompt) ∷ rest) e = elim (answer_of before address prompt e) [
    | none ↦ none
    | some text ↦ Option.map (◌∷◌ text) (answers before rest e)
  ]

  -- `gather` waits for nothing where there are no coroutines.
  unfoldable pub wait_all : ℕ → List (String × Chars) → Action (InferenceEngine Model) (Unit {0})
  wait_all n [] e = (return tt, e)
  wait_all n (p ∷ prompts) e = with_scheduler (run_due n) e

  unfoldable pub generate_all :
      ℕ → List (String × Chars) → ℕ → Stop → Action (InferenceEngine Model) (Option (List Chars))
  generate_all n prompts max_tokens stop e =
      (do
        submit_all prompts max_tokens stop
        wait_all n prompts
        λ after. (return (answers (num_done e) prompts after), after))
        e

  -- `addresses` are those of the prompts.
  unfoldable pub completions :
      ℕ
      → String
      → List String
      → CompletionRequest
      → Action (Option (InferenceEngine Model)) (Option Response)
  completions n request_id addresses request = do
    results ←
        with_engine (
          generate_all n (zip addresses (prompts_of request.prompt)) request.max_tokens
            request.stop)
    pure (Option.map (completion_response request_id request) results)
