-- ===== src/Stream/Pieces.antt =====
-- The pieces of `_chunk_completion` in app/gateway/router.py.
use llm_gateway_rag.Common.{
  ℕ, zero, suc, ◌≤◌, ◌≡◌, refl, ap, ◌∙◌, List, [], ◌∷◌, ◌++◌, map, length, take, drop, All,
  length-take, length-drop, take-append-drop, arith,
}
use llm_gateway_rag.Common.Text.{Text}
use llm_gateway_rag.Schemas.{ProviderResponse, StreamDelta}
use llm_gateway_rag.Stream.{chop, chunk_size, piece, last_delta, first_and_rest, chunk_completion}
use llm_gateway_rag.Stream.Relay.{join}

-- Pieces of one to `size` characters that together are the text, whatever its length, for any
-- positive `size` and any fuel from the length of the text on.
pub join-chop :
    (size fuel : ℕ) (t : Text)
    → 1 ≤ size
    → length t ≤ fuel
    → (join (chop size fuel t) ≡ t)
      × All (λ p. (1 ≤ length p) × (length p ≤ size)) (chop size fuel t)
unfolding chop join
join-chop size zero [] h k = (refl, tt)
join-chop size zero (c ∷ t) h k = absurd (omega arith)
join-chop size (suc fuel) [] h k = (refl, tt)
join-chop size (suc fuel) (c ∷ t) h k =
    let rest = drop size (c ∷ t) in
    let shorter : length rest ≤ fuel = omega (arith, length-drop size (c ∷ t)) in
    let (joined, sizes) = join-chop size fuel rest h shorter in
    let whole = take-append-drop size (c ∷ t) in
    (
      ap (λ r. take size (c ∷ t) ++ r) joined ∙ whole,
      ((omega (arith, length-take size (c ∷ t)), omega (arith, length-take size (c ∷ t))), sizes),
    )

abbrev pub texts : List StreamDelta → List Text
texts = map (λ d. d.content)

join_pieces :
    (response : ProviderResponse) (ts : List Text)
    → join (texts (map (piece response.model) ts ++ last_delta response ∷ [])) ≡ join ts
unfolding join
join_pieces response [] = refl
join_pieces response (t ∷ ts) = ap (λ r. t ++ r) (join_pieces response ts)

join-first_and_rest :
    (response : ProviderResponse) (ts : List Text)
    → let (first, rest) = first_and_rest response ts in join (texts (first ∷ rest)) ≡ join ts
unfolding join
join-first_and_rest response [] = refl
join-first_and_rest response (t ∷ ts) = ap (λ r. t ++ r) (join_pieces response ts)

-- The last delta of a chunked answer is the one that carries its usage and its finish reason.
abbrev pub EndsWith : StreamDelta → List StreamDelta → Type 0
EndsWith d rest = (before : List StreamDelta) × (rest ≡ before ++ d ∷ [])

-- The deltas made of a whole answer spell exactly its content, and end with the delta that carries
-- its usage and its finish reason.
pub chunk_completion_whole :
    (response : ProviderResponse)
    → let (first, rest) = chunk_completion response in
      (join (texts (first ∷ rest)) ≡ response.content) × EndsWith (last_delta response) rest
unfolding chunk_completion
chunk_completion_whole response =
    let ts = chop chunk_size (length response.content) response.content in
    (
      join-first_and_rest response ts
          ∙ (join-chop chunk_size (length response.content) response.content (omega arith)
              (omega arith)).0,
      ends response ts,
    )
  where
    ends : (r : ProviderResponse) (ts : List Text) → EndsWith (last_delta r) (first_and_rest r ts).1
    ends r [] = ([], refl)
    ends r (t ∷ ts) = (map (piece r.model) ts, refl)
