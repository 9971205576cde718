-- ===== src/Server/Streaming.antt =====
-- src/api_server.py: what the client of a stream puts together.
use Prim.Native.String.{String}
use vllm_rocm.Common.{
  suc, ◌≡◌, refl, ap, ◌∙◌, none, some, List, [], ◌∷◌, ◌++◌, length, append_assoc, append-nil,
  get_elem?, Chars, codes, is_space, split,
}
use vllm_rocm.Common.Words.{AreWords, split-AreWords, split-word, split-nil}
use vllm_rocm.Server.{Event, chunk, done, make_chunk, spaced, stream_words, stream_chat, num_words}

-- What an event adds to the text at the client.
abbrev pub content : Event → Chars
content (chunk c) = elim c.delta [ none ↦ [] | some text ↦ text ]
content done = []

unfoldable pub contents : List Event → Chars
contents [] = []
contents (e ∷ es) = content e ++ contents es

unfoldable pub client_text : List (List Event) → Chars
client_text [] = []
client_text (y ∷ ys) = contents y ++ client_text ys

unfoldable pub joined : List Chars → Chars
joined [] = []
joined (w ∷ ws) = spaced w ++ joined ws

split-joined : (ws : List Chars) → AreWords ws → split (joined ws) ≡ ws
unfolding joined is_space
split-joined [] a = split-nil
split-joined (w ∷ ws) a =
    ap split (append_assoc w (b' ' ∷ []) (joined ws))
    ∙ split-word w b' ' (joined ws) a.0 refl
    ∙ ap (◌∷◌ w) (split-joined ws a.1)

module _ (request_id : String) (model : Chars) where
  client_text-stream_words :
      (ws : List Chars) → client_text (stream_words request_id model ws) ≡ joined ws
  unfolding client_text contents stream_words joined
  client_text-stream_words [] = refl
  client_text-stream_words (w ∷ ws) =
      ap (λ t. t ++ client_text (stream_words request_id model ws)) (append-nil (spaced w))
      ∙ ap (λ t. spaced w ++ t) (client_text-stream_words ws)

  length-stream_words :
      (ws : List Chars) → length (stream_words request_id model ws) ≡ suc (length ws)
  unfolding stream_words
  length-stream_words [] = refl
  length-stream_words (w ∷ ws) = ap suc (length-stream_words ws)

  abbrev pub last_yield : List Event
  last_yield = make_chunk request_id model none (some (codes "stop")) ∷ done ∷ []

  get_elem?-stream_words :
      (ws : List Chars) → get_elem? (stream_words request_id model ws) (length ws) ≡ some last_yield
  unfolding stream_words
  get_elem?-stream_words [] = refl
  get_elem?-stream_words (w ∷ ws) = get_elem?-stream_words ws

  -- The chunks of a stream make a text with the words of the answer, in order, which is the text of the
  -- answer that is not streamed but for the spaces between. It has one chunk for each completion token
  -- that the usage would count, and then a chunk without content that says `stop`, with the mark.
  pub stream_chat-Streams :
      (text : Chars)
      → (split (client_text (stream_chat request_id model text)) ≡ split text)
        × (length (stream_chat request_id model text) ≡ suc (num_words text))
        × (get_elem? (stream_chat request_id model text) (num_words text) ≡ some last_yield)
  unfolding stream_chat
  stream_chat-Streams text = (
    ap split (client_text-stream_words (split text))
        ∙ split-joined (split text) (split-AreWords text),
    length-stream_words (split text),
    get_elem?-stream_words (split text),
  )
