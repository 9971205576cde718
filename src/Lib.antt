-- ===== src/Lib.antt =====
-- vllm-rocm: the scheduling and the memory management of an inference server.
--
-- The program serves language models on GPUs. Requests wait in a scheduler, which admits them while a
-- block manager has blocks of cache memory for them, preempts running ones in favour of waiting ones,
-- and generates a token for each in every tick. The keys and values of the tokens stand in blocks, and
-- tables say which blocks a sequence has. A prefix cache remembers the blocks of token prefixes.
--
-- The parts, and the files that model them (paths from the repository's root):
-- - Common: Python's lists, slices, dictionaries, integers and exceptions, which all parts share. A method
--   that raises is an `Action`: a function from the object's record to a result and the record after
--   the call, where what was assigned before an exception is kept.
-- - Config: src/config.py. Flags has the options, Cli `from_cli`; the child modules Overrides and Names are about
--   the YAML file and the name of the model.
-- - BlockManager: src/cache/block_manager.py, class `BlockManager`. The record's fields are the
--   attributes; each method is the action of the same name. Child modules: Accounting (the invariant:
--   the free list and the reference counts agree with what is held), Allocate, Release (`free`), Swap,
--   SwapIn, Prefix, Usage.
-- - Scheduler: src/scheduler.py, class `Scheduler`, which calls the block manager. `preempt`,
--   `schedule`, `run_step` and `finish` are `_preempt`, `_schedule`, `_run_step` and `_finish`. The
--   event loop is the field `ticks`, the number of calls of `_schedule_tick` still to be made; History
--   has the step relation of requests and ticks. Requests have distinct ids (the
--   engine takes the address of the prompt, which lives as long as the request) and are added once;
--   so `list.remove`, which compares groups by value, finds the group itself.
-- - PrefixCache: src/vllm_rocm/prefix_cache.py, class `PrefixCache`. The digest `hash_prefix` is a
--   parameter, of which nothing is assumed.
-- - PagedAttention: src/paged_attention.py, class `PagedAttentionManager`. A token's keys or values in
--   a layer are an abstract value, the cache tensor is a function of layer, block and place. Contents
--   is about runs of calls against a map without blocks.
-- - ContinuousBatch: src/vllm_rocm/scheduler.py, class `ContinuousBatchScheduler`. `schedule` works on
--   a `Pass`, the scheduler with the batch that is being made; sums over sequences (Weights) state
--   that none is lost or doubled. Sorting is about `sort`, Ordering about the priorities of `schedule`,
--   Victims about those of `_maybe_preempt`. Requests has the step relation of the calls.
-- - PagedCache: src/vllm_rocm/paged_attention.py, class `PagedAttentionManager`. The parts of
--   `append_token` are `ensure_sequence`, `ensure_block` and `store_token`. Room is about
--   the block for a position, Reading about the place in the cache that a position of what
--   `get_key_value` returns comes from, Tokens and Release about the two calls, Contents
--   about runs of calls against a map without blocks.
-- - KvStorage: src/cache/paged_attention.py, class `PagedAttentionKVCacheManager`. A block is a function
--   of the place in it, a dictionary of blocks a function of the id.
-- - TpEngine: src/vllm_rocm/tp_engine.py, `shard_weights` and the collectives, of which what
--   torch.distributed brings is an argument. Shards is about the rows.
-- - TensorParallel: src/tensor_parallel.py, the ranks, `parallelize` with `_split_linear` and
--   `_split_attention`, and the collectives. Forward compares a split layer with the whole one.
-- - Engine: src/engine.py, class `InferenceEngine`, with the scheduler in it. `generate_text` is `submit`, the
--   event loop `run_due`, and `collect`. Loop and Batch follow requests from the queue to their result.
-- - Server: src/api_server.py. The handlers are actions on the global engine; Lifespan starts it from the
--   command line, Sessions has the service without a state that the server is compared with, Queueing, Batches,
--   Futures and Completions are about a list of prompts. Serving is src/vllm_rocm/serve.py.
-- - Memory: src/vllm_rocm/memory_manager.py, class `GPUResourceManager`; Sizes and Pools.
-- - Quantization: src/vllm_rocm/quantization.py, class `QuantizationEngine`; Groups.
--
-- Loops are recursion on the list they walk over or on the number of rounds. The loop of `_preempt`
-- runs on fuel, one more than there are running groups: each round but the last takes one group out.
-- The event loop `run_due` runs on fuel too; `max_tokens` rounds and one more are enough for a request.
--
-- Texts are lists of code points where they are read, and native texts where they are names. The
-- tokenizer, the models, YAML files, torch's arithmetic and what torch.distributed brings are parameters.
--
-- Not modelled: floating-point numbers (utilization percentages, temperatures), times, logs and
-- tensors' contents; FastAPI, uvicorn and JSON, the inner workings of model loading and of the
-- collectives, the formatted memory status, the error metrics of quantization, and the GPU kernels. A
-- negative size, id, layer or position is not modelled: the callers have none.
pub mod Common
pub mod Config
pub mod BlockManager
pub mod Scheduler
pub mod PrefixCache
pub mod PagedAttention
pub mod ContinuousBatch
pub mod PagedCache
pub mod KvStorage
pub mod TpEngine
pub mod TensorParallel
pub mod Engine
pub mod Server
pub mod Memory
pub mod Quantization
