-- ===== src/Server/Batches.antt =====
-- What a batch of requests comes to: each with its result, found by its address.
use Prim.Native.String.{String}
use vllm_rocm.Common.{
  ℕ, ◌≡◌, refl, ap, ◌∙◌, inl, inr, some, List, [], ◌∷◌, map, drop, replicate, Chars, arith,
}
use vllm_rocm.Scheduler.{SequenceGroup, Scheduler, completed}
use vllm_rocm.Scheduler.Ownership.{All}
use vllm_rocm.Engine.{InferenceEngine, Tokenizer, Stop, request, collect, future_of, answer_of}
use vllm_rocm.Engine.Loop.{grown, finished_after, IsShort}
use vllm_rocm.Engine.Batch.{generated-grown, future-grown}
use vllm_rocm.Server.{answers}
use vllm_rocm.Server.Futures.{IsNamed, HasResult, future_of-IsNamed}
use vllm_rocm.Server.Queueing.{Prompts, requests}

answers_step :
    {Model : Type 0} (a : String) (p : Chars) (ps : Prompts) (e : InferenceEngine Model)
    (before : ℕ) (text : Chars) (more : List Chars)
    → answer_of before a p e ≡ some text
    → answers before ps e ≡ some more
    → answers before ((a, p) ∷ ps) e ≡ some (text ∷ more)
unfolding answers
answers_step a p ps e before text more this rest = rw (answers, this) (rw rest refl)

module _ (tok : Tokenizer) (max_tokens : ℕ) (stop : Stop) where
  abbrev result : List ℕ
  result = replicate max_tokens 0

  abbrev pub last_of_batch : Prompts → List SequenceGroup
  last_of_batch ps = map (finished_after max_tokens) (requests tok max_tokens stop ps)

  pub have_results : (ps : Prompts) → All (HasResult result) (last_of_batch ps)
  have_results [] = tt
  have_results ((a, p) ∷ ps) =
      let g = request tok a p max_tokens stop in
      let tokens : (grown max_tokens g).generated_tokens ≡ replicate max_tokens 0 =
        generated-grown max_tokens g in
      let pending = (future-grown max_tokens g).0 in
      let settled : HasResult (replicate max_tokens 0) (completed (grown max_tokens g)) =
        rw (pending, tokens) refl in
      (settled, have_results ps)

  pub requests-IsShort : (ps : Prompts) → All (IsShort max_tokens) (requests tok max_tokens stop ps)
  requests-IsShort [] = tt
  requests-IsShort (p ∷ ps) = (omega arith, requests-IsShort ps)

  abbrev AreNamed : List SequenceGroup → Prompts → Type 0
  AreNamed gs [] = Unit {0}
  AreNamed gs ((a, p) ∷ ps) = IsNamed a gs × AreNamed gs ps

  named_more :
      (g : SequenceGroup) (gs : List SequenceGroup) (ps : Prompts)
      → AreNamed gs ps
      → AreNamed (g ∷ gs) ps
  named_more g gs [] n = tt
  named_more g gs ((a, p) ∷ ps) n = (inr n.0, named_more g gs ps n.1)

  pub are_named : (ps : Prompts) → AreNamed (last_of_batch ps) ps
  are_named [] = tt
  are_named ((a, p) ∷ ps) =
      let g = finished_after max_tokens (request tok a p max_tokens stop) in
      (
        inl (future-grown max_tokens (request tok a p max_tokens stop)).1,
        named_more g (map (finished_after max_tokens) (requests tok max_tokens stop ps)) ps
            (are_named ps),
      )

  -- The texts of the batch, in the order of the prompts.
  abbrev pub texts : List Chars → List Chars
  texts prompts = map (λ p. collect tok p (replicate max_tokens 0)) prompts

  pub answers_lem :
      {Model : Type 0} (before : ℕ) (hs : List SequenceGroup) (ps : Prompts)
      (e : InferenceEngine Model) (t : Scheduler)
      → e.tokenizer ≡ some tok
      → e.scheduler ≡ some t
      → drop before t.done ≡ hs
      → All (HasResult result) hs
      → AreNamed hs ps
      → answers before ps e ≡ some (texts (map (λ p. p.1) ps))
  unfolding answers
  answers_lem before hs [] e t tk sc d r n = refl
  answers_lem before hs ((a, p) ∷ ps) e t tk sc d r n =
      let found : future_of a (drop before t.done) ≡ some (replicate max_tokens 0) =
        ap (future_of a) d ∙ future_of-IsNamed a (replicate max_tokens 0) hs r n.0 in
      let this : answer_of before a p e ≡ some (collect tok p (replicate max_tokens 0)) =
        rw (tk, sc, found) refl in
      answers_step a p ps e before _ _ this (answers_lem before hs ps e t tk sc d r n.1)
