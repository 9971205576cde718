-- ===== src/TensorParallel/Forward.antt =====
-- What a linear layer computes on the ranks, against the whole layer. The product of a row with the
-- input and the sum with the bias are torch's, and parameters.
use vllm_rocm.Common.{List, [], ◌∷◌, map}

module _ {R T X : Type 0} (dot : R → X → T) (plus : T → T → T) where
  unfoldable pub add_bias : List T → List T → List T
  add_bias [] bs = []
  add_bias (y ∷ ys) [] = []
  add_bias (y ∷ ys) (b ∷ bs) = plus y b ∷ add_bias ys bs

  -- The output of a layer with a bias, for an input.
  unfoldable pub forward : List R → List T → X → List T
  forward weight bias x = add_bias (map (λ r. dot r x) weight) bias
